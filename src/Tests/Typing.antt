-- ===== src/Tests/Typing.antt =====
-- Runs of the search as you type, and its theorems at such runs.
use search_every.Prelude.{
  text_eq, ◌*◌, ◌≤◌, List, [], ◌∷◌, ◌++◌, Text, true, codes, length, trim, trim_start, trim_end,
  is_space, ◌≡◌, refl, arith,
}
use search_every.Prelude.Int.{pos}
use search_every.Prelude.Number.{Number, whole}
use search_every.Types.{PageKey}
use search_every.Services.Api.{Command, search_query}
use search_every.App.State.{App, initial}
use search_every.App.Search.{request_of, sets_timer}
use search_every.App.Typing.{Render, debounce, typed}
use search_every.App.Typing.Pauses.{pauses, searches, typed-searches}
use search_every.App.Typing.Rate.{total, length-typed}
use search_every.App.Typing.Last.{last_change, last_search}
use search_every.App.Typing.Again.{answered, search_again}

abbrev reads_one : Text → Number
reads_one t = whole 1

abbrev empty_page : App
empty_page = initial true (pos 60)

abbrev with_query : Text → App
with_query q = record empty_page { query = q }

-- Two letters in a hurry, and the directory of the index that comes from the configuration.
abbrev hurry : List Render
hurry =
    (record { wait = 900; app = with_query (codes "t") })
    ∷ (record { wait = 100; app = with_query (codes "ta") })
    ∷ (record { wait = 200; app = record (with_query (codes "ta")) { index_dir = codes "x" } })
    ∷ []

abbrev hurried : App
hurried = record (with_query (codes "ta")) { index_dir = codes "x" }

typed-searches_example :
    typed reads_one empty_page hurry 300 ≡ searches reads_one (pauses empty_page 0 hurry 300)
typed-searches_example = typed-searches reads_one empty_page hurry 300

length-typed_example : length (typed reads_one empty_page hurry 300) * debounce ≤ total hurry 300
length-typed_example = length-typed reads_one empty_page hurry 300

last_search_example :
    (before : List Command) × (typed reads_one empty_page hurry 300
      ≡ before
        ++ search_query (record (request_of reads_one hurried) {
          index_dir = (last_change empty_page empty_page hurry).index_dir;
        })
          ∷ [])
unfolding initial trim trim_start trim_end is_space sets_timer
last_search_example = last_search reads_one empty_page hurry 300 refl refl (omega arith)

-- The directory that came with the configuration is not searched.
old_index_dir : (last_change empty_page empty_page hurry).index_dir ≡ empty_page.index_dir
unfolding initial text_eq
old_index_dir = refl

abbrev gone : App
gone = record (with_query (codes "ta")) { page = PageKey.settings }

search_again_example :
    ((answered reads_one gone []).page ≡ PageKey.search)
    × (typed reads_one gone ((record { wait = 5; app = answered reads_one gone [] }) ∷ []) 300
        ≡ search_query (request_of reads_one gone) ∷ [])
unfolding initial trim trim_start trim_end is_space
search_again_example = search_again reads_one gone [] 5 300 refl refl refl (omega arith)
