-- ===== src/Review/Taxonomy.antt =====
-- review/taxonomy.py: the closed list of categories, and their labels in five languages.
pub mod Laws
use mdp2p.Prelude.{
  Bool, true, false, ◌||◌, Option, none, some, List, [], ◌∷◌, String, ◌==◌, if◌then◌else◌,
}
use mdp2p.Py.Result.{Result, ok, raise, value_error}
use mdp2p.Dict.{Dict, lookup}
use mdp2p.Review.Slugs.{category_slugs}
use mdp2p.Review.Labels.{labels_fr, labels_en, labels_zh, labels_ar, labels_hi}

-- `slug in _CATEGORY_SET`
unfoldable pub mem_text : String → List String → Bool
mem_text s [] = false
mem_text s (x ∷ xs) = x == s || mem_text s xs

-- `is_valid_slug(slug)`
unfoldable pub is_valid_slug : String → Bool
is_valid_slug slug = mem_text slug category_slugs

-- `[s for s in slugs if s not in _CATEGORY_SET]`
unfoldable pub unknown_slugs : List String → List String
unknown_slugs [] = []
unknown_slugs (s ∷ ss) = let rest = unknown_slugs ss in if is_valid_slug s then rest else s ∷ rest

-- `if unknown: raise ValueError(…)`
unfoldable pub raise_unknown : List String → Result (Unit {0})
raise_unknown [] = ok tt
raise_unknown (s ∷ ss) = raise value_error

-- `validate_categories(slugs)`
unfoldable pub validate_categories : List String → Result (Unit {0})
validate_categories slugs = raise_unknown (unknown_slugs slugs)

-- `_LABELS_BY_LANG.get(lang) or _LABELS_EN`
unfoldable pub table : String → Dict String
table lang =
    if lang == "fr"
    then labels_fr
    else if lang == "en"
    then labels_en
    else if lang == "zh"
    then labels_zh
    else if lang == "ar"
    then labels_ar
    else if lang == "hi"
    then labels_hi
    else labels_en

-- `label(slug, lang)`
unfoldable pub label : String → String → String
unfolding table lookup
label slug lang = elim (lookup slug (table lang)) [ none ↦ slug | some text ↦ text ]

unfoldable pub with_labels : String → List String → List (String × String)
unfolding label
with_labels lang [] = []
with_labels lang (s ∷ ss) = (s, label s lang) ∷ with_labels lang ss

-- `labeled_categories(lang)`
unfoldable pub labeled_categories : String → List (String × String)
unfolding with_labels
labeled_categories lang = with_labels lang category_slugs
