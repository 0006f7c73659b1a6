-- ===== src/App/View/About.antt =====
-- What src/pages/AboutPage.tsx shows: its lists and its sections, each with a heading. It has no state.
use search_every.Prelude.{List, [], ◌∷◌, ◌++◌, Text, codes, join, map, ◌≡◌, refl}
use search_every.App.State.{App}
use search_every.App.View.Bar.{search_bar}
use search_every.Components.ThemeDropdown.{theme_options}

pub record Section : Type 0 where
  pub heading : Text
  pub items : List Text

-- The link stands at the end of the contact line.
pub record AboutView : Type 0 where
  pub status : Text
  pub product : List Text
  pub sections : List Section
  pub copyright : Section
  pub link : Text

abbrev intro : Section
intro = record {
  heading = codes "产品简介";
  items = codes "SearchEvery 致力于在本地海量文件中快速检索与定位，提供稳定、可配置且易用的搜索体验。" ∷ [];
}

abbrev result_line : Text
result_line = codes "结果查看：表格/卡片视图切换，支持打开文件所在位置。"

abbrev filter_line : Text
filter_line = codes "检索与筛选：关键词搜索、精确短语与正则高亮、扩展名过滤、大小范围（MB 单位）、结果排序（综合/时间/大小）。"

abbrev theme_line : Text
theme_line = codes "主题与语言：多主题（护眼/明亮/暗黑/科技/天蓝/暗紫/暗灰），中英文切换。"

abbrev features : Section
features = record {
  heading = codes "功能说明";
  items =
      codes "目录扫描与排除：可设置根目录与排除模式（如 \\\\Windows, \\\\Program Files）。"
      ∷ codes "索引构建：支持倒排索引，带实时进度事件与状态展示。"
      ∷ codes "内容解析：可选文本类文件解析以生成摘要（需启用）。"
      ∷ filter_line
      ∷ result_line
      ∷ theme_line
      ∷ codes "重复文件：预留功能，后续将支持按组展示与清理策略。"
      ∷ [];
}

abbrev privacy : Section
privacy = record {
  heading = codes "隐私与许可";
  items = codes "所有数据处理均在本地完成，除非用户手动分享，程序不会上传任何文件或索引。" ∷ codes "开源许可：MIT License；欢迎反馈与贡献。" ∷ [];
}

abbrev roadmap : Section
roadmap = record {
  heading = codes "路线图（预告）";
  items = codes "更多内容类型解析与预览支持。" ∷ codes "更细粒度的筛选维度与排序策略。" ∷ codes "重复文件识别与清理策略落地。" ∷ [];
}

unfoldable pub about_view : AboutView
about_view = record {
  status = codes "关于产品";
  product =
      codes "产品名：SearchEvery"
      ∷ codes "版本：预览版"
      ∷ codes "技术栈：React + Vite 前端，Tauri + Rust 后端，Tantivy 搜索引擎"
      ∷ [];
  sections = intro ∷ features ∷ privacy ∷ roadmap ∷ [];
  copyright = record {
    heading = codes "版权声明";
    items =
        codes "© 2025 七夜工作室 · 保留所有权利"
        ∷ codes "MIT License · 联系：qiye2025@qq.com · 代码仓库：github.com/smart-open/SearchEvery"
        ∷ [];
  };
  link = codes "https://github.com/smart-open/SearchEvery";
}

-- The page names the themes, the views and the orders as the menu of the themes and the tabs of the
-- search page do, in their order.
about_labels :
    (last_focus : Text) (s : App)
    → (theme_line
        ≡ codes "主题与语言：多主题（"
          ++ (join (codes "/") (map (λ o. o.label) theme_options) ++ codes "），中英文切换。"))
      × (result_line
          ≡ codes "结果查看："
            ++ (join (codes "/") (map (λ t. t.label) (search_bar last_focus s).views)
                ++ codes "视图切换，支持打开文件所在位置。"))
      × (filter_line
          ≡ codes "检索与筛选：关键词搜索、精确短语与正则高亮、扩展名过滤、大小范围（MB 单位）、结果排序（"
            ++ (join (codes "/") (map (λ t. t.label) (search_bar last_focus s).sorts)
                ++ codes "）。"))
unfolding search_bar join
about_labels last_focus s = (refl, refl, refl)
