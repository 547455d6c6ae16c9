-- ===== src/Review/Taxonomy/Laws.antt =====
-- The categories and their labels.
use mathlib.Core.List.{Mem, mem-cons, mem-cons_self, mem-cons_of_mem, not-mem-nil}
use mathlib.Core.Logic.Or
use mathlib.Core.Bool.{Bool-set}
use mdp2p.Prelude.{
  if◌then◌else◌, ◌==◌, Bool-cases, true, false, some, inl, inr, subst, sym, refl, ◌≡◌, true, List,
  [], ◌∷◌, String, arith, Bool, some, ◌↔◌, eq_iff,
}
use mdp2p.Dict.{Dict, lookup, has}
use mdp2p.Review.Slugs.{category_slugs}
use mdp2p.Review.Taxonomy.{
  mem_text, table, unknown_slugs, validate_categories, is_valid_slug, label, ok, labels_fr,
  labels_en, labels_zh, labels_ar, labels_hi, raise_unknown,
}

abbrev keys : Dict String → List String
keys [] = []
keys ((k, v) ∷ d) = k ∷ keys d

-- The test for membership decides the library's membership.
pub mem_text→Mem : (s : String) (xs : List String) → mem_text s xs ≡ true → Mem s xs
unfolding mem_text
mem_text→Mem s [] h = cc
mem_text→Mem s (x ∷ xs) h = elim (Bool-cases (x == s)) [
  | inl same ↦ subst (λ y. Mem s (y ∷ xs)) (sym ((eq_iff x s).0 same)) mem-cons_self
  | inr other ↦ mem-cons_of_mem x (mem_text→Mem s xs (ground arith))
]

Mem→mem_text : (s : String) (xs : List String) → Mem s xs → mem_text s xs ≡ true
unfolding mem_text
Mem→mem_text s [] m = absurd (not-mem-nil m)
Mem→mem_text s (x ∷ xs) m =
    Or.elim (Bool-set _ _) (mem-cons.0 m) (λ e. ground (arith, eq_iff x s))
      (λ r. ground (arith, Mem→mem_text s xs r))

-- Each entry of a list is a category of the closed list.
abbrev pub AllListed : List String → Type 0
AllListed [] = Unit
AllListed (s ∷ ss) = Mem s category_slugs × AllListed ss

pub is_valid→Mem : (s : String) → is_valid_slug s ≡ true → Mem s category_slugs
unfolding is_valid_slug
is_valid→Mem s h = mem_text→Mem s category_slugs h

Mem→is_valid : (s : String) → Mem s category_slugs → is_valid_slug s ≡ true
unfolding is_valid_slug
Mem→is_valid s h = Mem→mem_text s category_slugs h

has_key : (d : Dict String) (slug : String) → mem_text slug (keys d) ≡ true → has slug d ≡ true
unfolding mem_text has lookup
has_key [] slug h = cc
has_key ((k, v) ∷ d) slug h = ground (arith, has_key d slug)

keys_if :
    (b : Bool) (d e : Dict String)
    → keys d ≡ category_slugs
    → keys e ≡ category_slugs
    → keys (if b then d else e) ≡ category_slugs
keys_if true d e h k = h
keys_if false d e h k = k

-- Every table has a label for exactly the categories, in their order.
keys-table : (lang : String) → keys (table lang) ≡ category_slugs
unfolding table
keys-table lang = keys_if (lang == "fr") labels_fr _ refl (
    keys_if (lang == "en") labels_en _ refl (
      keys_if (lang == "zh") labels_zh _ refl (
        keys_if (lang == "ar") labels_ar _ refl
          (keys_if (lang == "hi") labels_hi labels_en refl refl))))

lookup_of_has :
    (slug : String) (d : Dict String)
    → has slug d ≡ true
    → (text : String) × (lookup slug d ≡ some text)
unfolding has
lookup_of_has slug d h = ground arith

label_found :
    (slug lang text : String) → lookup slug (table lang) ≡ some text → label slug lang ≡ text
unfolding label
label_found slug lang text h = rw (h, label)

-- A category of the closed list has a label of its own in every language, known or not: the label is
-- never the bare slug for want of an entry.
pub label_of_listed :
    (slug lang : String)
    → Mem slug category_slugs
    → (text : String) × (lookup slug (table lang) ≡ some text) × (label slug lang ≡ text)
label_of_listed slug lang h =
    let listed = Mem→mem_text slug category_slugs h in
    let there =
      has_key (table lang) slug
        (subst (λ ks. mem_text slug ks ≡ true) (sym (keys-table lang)) listed) in
    let (text, found) = lookup_of_has slug (table lang) there in
    (text, found, label_found slug lang text found)

unknown_slugs→ : (slugs : List String) → unknown_slugs slugs ≡ [] → AllListed slugs
unfolding unknown_slugs
unknown_slugs→ [] h = tt
unknown_slugs→ (s ∷ ss) h = elim (Bool-cases (is_valid_slug s)) [
  | inl listed ↦ (is_valid→Mem s listed, unknown_slugs→ ss (ground arith))
  | inr unlisted ↦ absurd (ground arith)
]

→unknown_slugs : (slugs : List String) → AllListed slugs → unknown_slugs slugs ≡ []
unfolding unknown_slugs
→unknown_slugs [] h = refl
→unknown_slugs (s ∷ ss) h = rw (Mem→is_valid s h.0) (→unknown_slugs ss h.1)

raised : (ss : List String) → raise_unknown ss ≡ ok tt → ss ≡ []
unfolding raise_unknown
raised [] h = refl
raised (s ∷ ss) h = cc

-- `validate_categories` returns exactly for a list of categories from the closed list.
pub validate_categories_iff :
    (slugs : List String) → (validate_categories slugs ≡ ok tt) ↔ AllListed slugs
unfolding validate_categories raise_unknown
validate_categories_iff slugs = (
  λ h. unknown_slugs→ slugs (raised (unknown_slugs slugs) h),
  λ h. rw (→unknown_slugs slugs h, raise_unknown),
)
