-- ===== src/Peer/Daemon/Turns.antt =====
-- What one turn of the reviewer's polling loop does, and how it ends.
use mdp2p.Py.Value.Laws.{as_key-ok}
use mdp2p.Peer.Daemon.{
  Hooks, ℤ, Ending, read_entry, turn_on, Items, turn, skip, Act, Value, fail, Turn, after_fetch,
  finished, failed, verify_review_assignment, asked, after_callback, if_assigned, skipped,
  attach_verdict, deadline_of, Assigned, by_deadline, ReviewVerdict, pos, Verification, posted,
  ltb_ℤ, get_attr, Fields, valid, review_of, is_processed, or_empty, refused, truthy, as_key,
}
use mdp2p.Prelude.{
  String, AllOf, ◌≢◌, ◌≡◌, [], Option, Bool-cases, some, subst, Bool, none, inr, false, inl, true,
  ◌⊎◌, if◌then◌else◌, refl, not, ap, ◌∙◌,
}
use mdp2p.Platform.{Platform}
use mdp2p.Prelude.{◌||◌}
use mdp2p.Py.Value.{null, str}
use mdp2p.Py.Result.{Exc, Result, ok, raise, >>=-eq-ok, ok_injective}

module _ (p : Platform) (private_key : p.PrivateKey) (public_key_b64 : String) (hooks : Hooks)
    (now : ℤ) where
  -- A verified assignment under this content key, which is not among those processed
  pub record IsNew (processed : Items) (rec content_key : Value) : Type 0 where
    pub signature : Value
    pub verified : verify_review_assignment p (pos 0) none rec signature ≡ ok valid
    pub key_at : get_attr rec "content_key" (str "") ≡ ok content_key
    pub unprocessed : is_processed content_key processed ≡ false

  -- It is new, not past its deadline, and its manifest was fetched.
  pub record IsDue (processed : Items) (rec manifest content_key : Value) : Type 0 where
    pub new : IsNew processed rec content_key
    pub deadline : ℤ
    pub deadline_at : deadline_of rec ≡ ok deadline
    pub not_past : ltb_ℤ deadline now ≡ false
    pub fetched : hooks.content_fetcher rec ≡ ok (some manifest)

  -- What is asked is due, and what is posted is the review of what was answered.
  abbrev pub IsRight : Items → Act → Type 0
  IsRight processed (asked rec manifest) = (key : Value) × IsDue processed rec manifest key
  IsRight processed (posted rec review signature) =
      (key : Value) × (manifest : Value) × (verdict : ReviewVerdict) × IsDue processed rec manifest
        key
      × (hooks.callback rec manifest ≡ ok (some verdict))
      × (review_of p private_key public_key_b64 hooks rec key verdict ≡ ok (review, signature))

  -- An assignment under the key was new, and either it was past its deadline or a decision was made on
  -- it, to post nothing included.
  pub record IsDecided (processed : Items) (content_key : Value) : Type 0 where
    pub rec : Value
    pub new : IsNew processed rec content_key
    pub decided :
        ((deadline : ℤ) × (deadline_of rec ≡ ok deadline) × (ltb_ℤ deadline now ≡ true))
        ⊎ ((manifest : Value) × (answer : Option ReviewVerdict) × IsDue processed rec manifest
              content_key
            × (hooks.callback rec manifest ≡ ok answer))

  -- What is posted ends the turn with its key processed.
  abbrev pub EndsWith : Ending → Act → Type 0
  EndsWith ending (asked rec manifest) = Unit
  EndsWith ending (posted rec review signature) =
      (k : String) × (ending ≡ finished (str k))
      × (get_attr rec "content_key" (str "") ≡ ok (str k))

  pub record IsTurn (processed : Items) (t : Turn) : Type 0 where
    pub right : AllOf (IsRight processed) t.acts
    pub ends : AllOf (EndsWith t.ending) t.acts
    pub decided : (key : Value) → t.ending ≡ finished key → IsDecided processed key

  idle :
      (processed : Items) (ending : Ending)
      → ((key : Value) → ending ≢ finished key)
      → IsTurn processed record { acts = []; ending = ending }
  idle processed ending not_finished = record {
    right = tt;
    ends = tt;
    decided = λ key e. absurd (not_finished key e);
  }

  skip-IsTurn : (processed : Items) → IsTurn processed skip
  skip-IsTurn processed = idle processed skipped (λ key e. cc)

  fail-IsTurn : (processed : Items) (x : Exc) → IsTurn processed (fail x)
  fail-IsTurn processed x = idle processed (failed x) (λ key e. cc)

  module _ (processed : Items) (rec key : Value) where
    finished_injective : (k : Value) → finished key ≡ finished k → key ≡ k
    finished_injective k e = cc

    attach_verdict-IsTurn :
        (manifest : Value) (verdict : ReviewVerdict) (made : Result (Fields × String))
        → IsDue processed rec manifest key
        → hooks.callback rec manifest ≡ ok (some verdict)
        → review_of p private_key public_key_b64 hooks rec key verdict ≡ made
        → IsTurn processed (attach_verdict p private_key public_key_b64 hooks rec manifest made key)
    unfolding attach_verdict review_of
    attach_verdict-IsTurn manifest verdict (raise x) due answered made_at = record {
      right = ((key, due), tt);
      ends = (tt, tt);
      decided = λ k e. absurd (cc);
    }
    attach_verdict-IsTurn manifest verdict (ok (review, signature)) due answered made_at = record {
      right = ((key, due), ((key, manifest, verdict, due, answered, made_at), tt));
      ends = (tt, (named, tt));
      decided = λ k e. subst (IsDecided processed) (finished_injective k e) record {
        rec = rec;
        new = due.new;
        decided = inr (manifest, some verdict, due, answered);
      };
    }
      where
        named :
            (k : String) × (finished key ≡ finished (str k))
            × (get_attr rec "content_key" (str "") ≡ ok (str k))
        named =
            let (k, k_at, _) = >>=-eq-ok (as_key key) _ made_at in
            let is_text : key ≡ str k = as_key-ok key k k_at in
            (k, ap finished is_text, due.new.key_at ∙ ap ok is_text)

    after_callback-IsTurn :
        (manifest : Value) (answer : Result (Option ReviewVerdict))
        → IsDue processed rec manifest key
        → hooks.callback rec manifest ≡ answer
        → IsTurn processed
            (after_callback p private_key public_key_b64 hooks rec manifest key answer)
    unfolding after_callback
    after_callback-IsTurn manifest (raise x) due at = record {
      right = ((key, due), tt);
      ends = (tt, tt);
      decided = λ k e. absurd (cc);
    }
    after_callback-IsTurn manifest (ok none) due at = record {
      right = ((key, due), tt);
      ends = (tt, tt);
      decided = λ k e.
          subst (IsDecided processed) (finished_injective k e)
            record { rec = rec; new = due.new; decided = inr (manifest, none, due, at) };
    }
    after_callback-IsTurn manifest (ok (some verdict)) due at =
        attach_verdict-IsTurn manifest verdict _ due at refl

    after_fetch-IsTurn :
        (fetched : Result (Option Value)) (deadline : ℤ)
        → hooks.content_fetcher rec ≡ fetched
        → IsNew processed rec key
        → deadline_of rec ≡ ok deadline
        → ltb_ℤ deadline now ≡ false
        → IsTurn processed (after_fetch p private_key public_key_b64 hooks rec key fetched)
    unfolding after_fetch
    after_fetch-IsTurn (raise x) deadline at new deadline_at not_past = skip-IsTurn processed
    after_fetch-IsTurn (ok none) deadline at new deadline_at not_past = skip-IsTurn processed
    after_fetch-IsTurn (ok (some manifest)) deadline at new deadline_at not_past =
        after_callback-IsTurn manifest (hooks.callback rec manifest)
          record {
            new = new;
            deadline = deadline;
            deadline_at = deadline_at;
            not_past = not_past;
            fetched = at;
          }
          refl

    by_deadline-IsTurn :
        (read : Result ℤ)
        → deadline_of rec ≡ read
        → IsNew processed rec key
        → IsTurn processed (by_deadline p private_key public_key_b64 hooks now rec key read)
    unfolding by_deadline
    by_deadline-IsTurn (raise x) at new = fail-IsTurn processed x
    by_deadline-IsTurn (ok deadline) at new = elim (Bool-cases (ltb_ℤ deadline now)) [
      | inl past ↦ rw past record {
        right = tt;
        ends = tt;
        decided = λ k e.
            subst (IsDecided processed) (finished_injective k e)
              record { rec = rec; new = new; decided = inl (deadline, at, past) };
      }
      | inr not_past ↦
          rw not_past (after_fetch-IsTurn (hooks.content_fetcher rec) deadline refl new at not_past)
    ]

    if_assigned-IsTurn :
        (signature : Value) (checked : Result Verification)
        → verify_review_assignment p (pos 0) none rec signature ≡ checked
        → get_attr rec "content_key" (str "") ≡ ok key
        → is_processed key processed ≡ false
        → IsTurn processed (if_assigned p private_key public_key_b64 hooks now rec key checked)
    unfolding if_assigned
    if_assigned-IsTurn signature (raise x) at key_at new = fail-IsTurn processed x
    if_assigned-IsTurn signature (ok (refused r)) at key_at new = skip-IsTurn processed
    if_assigned-IsTurn signature (ok valid) at key_at new =
        by_deadline-IsTurn (deadline_of rec) refl
          record { signature = signature; verified = at; key_at = key_at; unprocessed = new }

  read_entry-key :
      (entry : Value) (a : Assigned)
      → read_entry entry ≡ ok a
      → get_attr a.rec "content_key" (str "") ≡ ok a.content_key
  unfolding read_entry
  read_entry-key entry a e =
      let (found, _, e₁) = >>=-eq-ok (get_attr entry "record" null) _ e in
      let (signature, _, e₂) = >>=-eq-ok (get_attr entry "signature" (str "")) _ e₁ in
      let (key, key_at, e₃) = >>=-eq-ok (get_attr (or_empty found) "content_key" (str "")) _ e₂ in
      subst (λ b. get_attr b.rec "content_key" (str "") ≡ ok b.content_key) (ok_injective _ _ e₃)
        key_at

  turn_on-IsTurn :
      (processed : Items) (entry : Value) (read : Result Assigned)
      → read_entry entry ≡ read
      → IsTurn processed (turn_on p private_key public_key_b64 hooks now processed read)
  unfolding turn_on
  turn_on-IsTurn processed entry (raise x) at = fail-IsTurn processed x
  turn_on-IsTurn processed entry (ok a) at =
      choose (not (truthy a.content_key)) (is_processed a.content_key processed) refl
    where
      choose :
          (b c : Bool)
          → is_processed a.content_key processed ≡ c
          → IsTurn processed (
              if b || c
              then skip
              else if_assigned p private_key public_key_b64 hooks now a.rec a.content_key
                  (verify_review_assignment p (pos 0) none a.rec a.signature))
      choose true c c_at = skip-IsTurn processed
      choose false true c_at = skip-IsTurn processed
      choose false false c_at =
          if_assigned-IsTurn processed a.rec a.content_key a.signature _ refl
            (read_entry-key entry a at) c_at

  pub turn-IsTurn :
      (processed : Items) (entry : Value)
      → IsTurn processed (turn p private_key public_key_b64 hooks now processed entry)
  unfolding turn
  turn-IsTurn processed entry = turn_on-IsTurn processed entry (read_entry entry) refl
