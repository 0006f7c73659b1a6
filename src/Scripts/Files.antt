-- ===== src/Scripts/Files.antt =====
-- Scripts as what they leave behind: the changes of the file system, and whether an exception ended
-- them. The names of files are those below the directory of the icons; the console is left out.
pub mod Jobs
use search_every.Prelude.{
  ℕ, List, [], ◌∷◌, ◌++◌, Text, Bool, Option, none, some, codes, if◌then◌else◌,
}
use search_every.Prelude.Decimal.{show}

-- The bytes of a file or an image.
abbrev pub Buffer : Type 0
Buffer = List ℕ

-- What the script finds, and what the system allows: the directory and its files, with the content
-- that can be read; whether the directory can be made and a file written.
pub record Disk : Type 0 where
  pub dir_exists : Bool
  pub exists : Text → Bool
  pub read : Text → Option Buffer
  pub can_make_dir : Bool
  pub can_write : Text → Bool

-- `fs.mkdirSync(iconsDir, { recursive: true })` and `fs.writeFileSync(path, bytes)`
pub data Action : Type 0 where
  make_dir : Action
  write : Text → Buffer → Action

-- What happened before the code returned or threw.
pub data Run (A : Type 0) : Type 0 where
  returns : List Action → A → Run A
  throws : List Action → Run A

-- The same with changes in front.
abbrev pub behind : {B : Type 0} → List Action → Run B → Run B
behind before (returns after b) = returns (before ++ after) b
behind before (throws after) = throws (before ++ after)

infixl 5 ◌>>=◌
abbrev pub ◌>>=◌ : {A B : Type 0} → Run A → (A → Run B) → Run B
returns done a >>= f = behind done (f a)
throws done >>= f = throws done

infixl 5 ◌>>◌
abbrev pub ◌>>◌ : {B : Type 0} → Run (Unit {0}) → Run B → Run B
m >> k = m >>= λ _. k

-- A library call that may throw.
abbrev pub attempt : {A : Type 0} → Option A → Run A
attempt none = throws []
attempt (some a) = returns [] a

abbrev pub perform : Bool → Action → Run (Unit {0})
perform allowed a = if allowed then returns (a ∷ []) tt else throws []

-- `if (!fs.existsSync(iconsDir)) fs.mkdirSync(iconsDir, { recursive: true })`
abbrev pub ensure_dir : Disk → Run (Unit {0})
ensure_dir d = if d.dir_exists then returns [] tt else perform d.can_make_dir make_dir

abbrev pub write_file : Disk → Text → Buffer → Run (Unit {0})
write_file d name bytes = perform (d.can_write name) (write name bytes)

-- `main().catch(err => { …; process.exit(1) })`
abbrev pub exit_status : Run (Unit {0}) → ℕ
exit_status (returns done u) = 0
exit_status (throws done) = 1

abbrev pub writes : List Action → List (Text × Buffer)
writes [] = []
writes (make_dir ∷ as') = writes as'
writes (write name bytes ∷ as') = (name, bytes) ∷ writes as'

-- The files that were written, in order.
abbrev pub written : {A : Type 0} → Run A → List (Text × Buffer)
written (returns done a) = writes done
written (throws done) = writes done

abbrev pub icon_name : ℕ → Text
icon_name size = codes "icon-" ++ (show size ++ codes ".ico")
