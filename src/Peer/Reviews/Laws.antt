-- ===== src/Peer/Reviews/Laws.antt =====
-- The signals and the pool that a client of peer/peer.py takes from a naming server.
use mdp2p.Bundle.Signed.{valid, refused}
use mdp2p.Py.Result.{ok_injective, >>=-eq-ok}
use mdp2p.Review.Record.Laws.{IsReview, verify_review_record→}
use mdp2p.Peer.Reviews.{
  prepend, signal_of, attachments_to_signals, if_verified, Result, new_signal, Signal, Items, Value,
  Verification, Fields, str, ok, verify_review_record, obj, pos, get_or, refused, cons, null,
  to_int, pair_of, int,
}
use mdp2p.Py.Value.{is_text, null, nil}
use mdp2p.Platform.{Platform}
use mdp2p.Prelude.{
  refl, true, false, List, String, Bool, Option, if◌then◌else◌, ◌≡◌, some, not, arith, subst, none,
  ap, eq_iff, ◌∙◌, some_injective, AllOf,
}

module _ (p : Platform) where
  -- A review of the content, signed by the reviewer that it names, says what the signal says.
  pub record IsAuthentic (expected : String) (s : Signal) : Type 0 where
    pub rec : Fields
    pub signature : Value
    pub is_review : IsReview p (obj rec) signature
    pub for_content : get_or rec "content_key" null ≡ str expected
    pub content : s.content_key ≡ expected
    pub source : s.source_pubkey ≡ get_or rec "reviewer_public_key" (str "")
    pub says : s.verdict ≡ get_or rec "verdict" (str "ok")
    pub dated : to_int (get_or rec "timestamp" (int (pos 0))) ≡ ok s.timestamp

  text_at : (v : Value) (s : String) → is_text v s ≡ true → v ≡ str s
  unfolding is_text
  text_at (str t) s h = ap str ((eq_iff t s).0 h)
  text_at null s h = cc
  text_at _ s h = cc

  unless_none :
      {A : Type 0} (b : Bool) (next : Result (Option A)) (a : A)
      → (if not b then ok none else next) ≡ ok (some a)
      → (b ≡ true) × (next ≡ ok (some a))
  unless_none true next a h = (refl, h)
  unless_none false next a h = absurd (ground (arith, h))

  if_verified→ :
      (v : Verification) (expected : String) (rec : Fields) (signature : Value) (s : Signal)
      → verify_review_record p (pos 0) none (obj rec) signature ≡ ok v
      → if_verified v expected rec ≡ ok (some s)
      → IsAuthentic expected s
  unfolding if_verified new_signal
  if_verified→ (refused r) expected rec signature s checked h = absurd (ground (arith, h))
  if_verified→ valid expected rec signature s checked h =
      let (content_ok, h₁) = unless_none (is_text (get_or rec "content_key" null) expected) _ s h in
      let (t, dated, h₂) = >>=-eq-ok (to_int (get_or rec "timestamp" (int (pos 0)))) _ h₁ in
      subst (IsAuthentic expected) (some_injective _ s (ok_injective _ _ h₂)) (record {
        rec = rec;
        signature = signature;
        is_review = (verify_review_record→ p (obj rec) signature (pos 0) none checked).1;
        for_content = text_at _ expected content_ok;
        content = refl;
        source = refl;
        says = refl;
        dated = dated;
      })

  signal_of→ :
      (expected : String) (o : Option (Fields × Value)) (s : Signal)
      → signal_of p expected o ≡ ok (some s)
      → IsAuthentic expected s
  unfolding signal_of
  signal_of→ expected none s h = absurd (ground (arith, h))
  signal_of→ expected (some (rec, signature)) s h =
      let (v, checked, h') =
        >>=-eq-ok (verify_review_record p (pos 0) none (obj rec) signature) _ h in
      if_verified→ v expected rec signature s checked h'

  prepend-AllOf :
      (expected : String) (o : Option Signal) (signals : List Signal)
      → ((s : Signal) → o ≡ some s → IsAuthentic expected s)
      → AllOf (IsAuthentic expected) signals
      → AllOf (IsAuthentic expected) (prepend o signals)
  unfolding prepend
  prepend-AllOf expected none signals one all = all
  prepend-AllOf expected (some s) signals one all = (one s refl, all)

  -- Whatever a naming server lists, each signal that reaches the scorer is a review of that content,
  -- signed by the reviewer that the signal names, with his verdict and time stamp.
  pub attachments_to_signals-IsAuthentic :
      (entries : Items) (expected : String) (signals : List Signal)
      → attachments_to_signals p entries expected ≡ ok signals
      → AllOf (IsAuthentic expected) signals
  unfolding attachments_to_signals
  attachments_to_signals-IsAuthentic nil expected signals h =
      subst (AllOf (IsAuthentic expected)) (ok_injective _ signals h) tt
  attachments_to_signals-IsAuthentic (cons entry entries) expected signals h =
      let (o, first, h₁) = >>=-eq-ok (signal_of p expected (pair_of entry)) _ h in
      let (more, rest, h₂) = >>=-eq-ok (attachments_to_signals p entries expected) _ h₁ in
      subst (AllOf (IsAuthentic expected)) (ok_injective _ signals h₂) (
        prepend-AllOf expected o more
          (λ s e. signal_of→ expected (pair_of entry) s (first ∙ ap ok e))
          (attachments_to_signals-IsAuthentic entries expected more rest))
