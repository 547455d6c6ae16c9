-- ===== src/Peer/Daemon/Processed.antt =====
-- The list of processed content keys, which grows at its end.
use mdp2p.Prelude.{
  String, ◌≡◌, true, eq_refl, ◌⊎◌, arith, ap, Bool-cases, refl, eq_iff, false, inl, inr,
}
use mdp2p.Peer.Daemon.{push_back, is_text, Value, is_processed}
use mdp2p.Prelude.{◌||◌}
use mdp2p.Py.Value.{null, str, nil, cons, has_str, Items, is_text}

-- Each text of the first list is in the second.
abbrev pub IsSub : Items → Items → Type 0
IsSub xs ys = (k : String) → has_str xs k ≡ true → has_str ys k ≡ true

pub has_str-push_back :
    (xs : Items) (v : Value) (k : String)
    → has_str (push_back xs v) k ≡ (has_str xs k || is_text v k)
unfolding has_str push_back is_text
has_str-push_back nil (str s) k = ground arith
has_str-push_back nil null k = refl
has_str-push_back nil v k = refl
has_str-push_back (cons (str s) xs) v k = ground (arith, has_str-push_back xs v k)
has_str-push_back (cons null xs) v k = has_str-push_back xs v k
has_str-push_back (cons w xs) v k = has_str-push_back xs v k

is_text→ : (v : Value) (k : String) → is_text v k ≡ true → v ≡ str k
unfolding is_text
is_text→ (str s) k h = ap str ((eq_iff s k).0 h)
is_text→ null k h = cc
is_text→ _ k h = cc

pub push_back-IsSub : (xs : Items) (v : Value) → IsSub xs (push_back xs v)
push_back-IsSub xs v k h = ground (arith, has_str-push_back xs v k)

pub push_back-new :
    (xs : Items) (v : Value) (k : String)
    → has_str (push_back xs v) k ≡ true
    → (has_str xs k ≡ true) ⊎ (v ≡ str k)
push_back-new xs v k h = elim (Bool-cases (has_str xs k)) [
  | inl old ↦ inl old
  | inr new ↦ inr (is_text→ v k (ground (arith, has_str-push_back xs v k)))
]

pub push_back-has : (xs : Items) (k : String) → has_str (push_back xs (str k)) k ≡ true
push_back-has xs k = ground (arith, has_str-push_back xs (str k) k, is_text_self k)
  where
    is_text_self : (k : String) → is_text (str k) k ≡ true
    is_text_self k = unfold is_text in eq_refl k

-- What is not processed in the larger list is not in the smaller one.
pub unprocessed-IsSub :
    (xs ys : Items) (key : Value)
    → IsSub xs ys
    → is_processed key ys ≡ false
    → is_processed key xs ≡ false
unfolding is_processed
unprocessed-IsSub xs ys (str k) sub h = ground (arith, sub k)
unprocessed-IsSub xs ys null sub h = refl
unprocessed-IsSub xs ys _ sub h = refl
