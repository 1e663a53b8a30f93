-- ===== src/Catalog/Config/Lookup.antt =====
-- What the catalogue holds after a flat file of tools was loaded.
use app_intent_system_orches.Base.{
  ◌≡◌, refl, sym, ◌∙◌, inl, inr, String, Bool, List, [], ◌∷◌, ◌++◌, map, keep, ◌==◌, string_eq,
  eq_iff, arith, Bool-cases, if◌then◌else◌,
}
use mathlib.Core.List.{append_assoc, append-nil}
use app_intent_system_orches.Catalog.Config.{
  Categories, ToolConfig, ToolEntry, tool_of, push_tool, group_tools, get_tools_by_category,
}

abbrev pub is_in : String → ToolConfig → Bool
is_in category tool = tool.category == category

get_tools-push_tool :
    (category : String) (tool : ToolConfig) (configs : Categories) (c : String)
    → get_tools_by_category (push_tool category tool configs) c ≡ (
        if category == c
        then get_tools_by_category configs c ++ (tool ∷ [])
        else get_tools_by_category configs c)
unfolding push_tool
get_tools-push_tool category tool [] c = ground arith
get_tools-push_tool category tool ((d, tools) ∷ rest) c = ground (
  arith,
  get_tools-push_tool category tool rest c,
  eq_iff d category,
  eq_iff d c,
  eq_iff category c,
)

-- After a load of a flat file, each category holds what it held before, and then exactly the
-- tools of the file that name the category, with 'General' for none, in the order of the file.
pub get_tools_by_category-group_tools :
    (entries : List ToolEntry) (configs : Categories) (c : String)
    → get_tools_by_category (group_tools entries configs) c
      ≡ get_tools_by_category configs c ++ keep (is_in c) (map tool_of entries)
unfolding group_tools
get_tools_by_category-group_tools [] configs c = sym (append-nil _)
get_tools_by_category-group_tools (entry ∷ entries) configs c =
    get_tools_by_category-group_tools entries
      (push_tool (tool_of entry).category (tool_of entry) configs) c
    ∙ elim (Bool-cases (is_in c (tool_of entry))) [
      | inl e ↦
          rw (get_tools-push_tool (tool_of entry).category (tool_of entry) configs c, e)
            (append_assoc (get_tools_by_category configs c) (tool_of entry ∷ [])
              (keep (is_in c) (map tool_of entries)))
      | inr e ↦ rw (get_tools-push_tool (tool_of entry).category (tool_of entry) configs c, e) refl
    ]
