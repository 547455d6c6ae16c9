-- ===== src/Peer/Daemon/Passes.antt =====
-- What the loop over the entries of the inbox does, and which keys it leaves as processed.
use mdp2p.Peer.Daemon.Processed.{
  push_back-new, push_back-has, IsSub, push_back-IsSub, unprocessed-IsSub,
}
use mdp2p.Peer.Daemon.Turns.{IsDecided, IsNew, IsDue, IsRight, IsTurn, EndsWith, turn-IsTurn}
use mdp2p.Prelude.{
  String, ◌≡◌, true, ◌⊎◌, arith, refl, false, inl, inr, AllOf, none, subst, sym, ◌++◌, AllOf-append,
  Bool, AllOf-imp, List,
}
use mdp2p.Peer.Daemon.{
  Value, Platform, Hooks, ℤ, processed_after, Turn, Pass, Act, asked, Ending, failed, posted,
  get_attr, finished, handle_entries, then_pass, skipped, turn, is_finished,
}
use mdp2p.Prelude.{◌||◌}
use mdp2p.Py.Value.{str, nil, cons, has_str, Items}
use mdp2p.Py.Result.{ok}

module _ (p : Platform) (private_key : p.PrivateKey) (public_key_b64 : String) (hooks : Hooks)
    (now : ℤ) where
  IsNew-IsSub :
      (xs ys : Items) (rec key : Value)
      → IsSub xs ys
      → IsNew p private_key public_key_b64 hooks now ys rec key
      → IsNew p private_key public_key_b64 hooks now xs rec key
  IsNew-IsSub xs ys rec key sub new = record {
    signature = new.signature;
    verified = new.verified;
    key_at = new.key_at;
    unprocessed = unprocessed-IsSub xs ys key sub new.unprocessed;
  }

  IsDue-IsSub :
      (xs ys : Items) (rec manifest key : Value)
      → IsSub xs ys
      → IsDue p private_key public_key_b64 hooks now ys rec manifest key
      → IsDue p private_key public_key_b64 hooks now xs rec manifest key
  IsDue-IsSub xs ys rec manifest key sub due = record {
    new = IsNew-IsSub xs ys rec key sub due.new;
    deadline = due.deadline;
    deadline_at = due.deadline_at;
    not_past = due.not_past;
    fetched = due.fetched;
  }

  IsRight-IsSub :
      (xs ys : Items)
      → IsSub xs ys
      → (a : Act) → IsRight p private_key public_key_b64 hooks now ys a
      → IsRight p private_key public_key_b64 hooks now xs a
  IsRight-IsSub xs ys sub (asked rec manifest) (key, due) =
      (key, IsDue-IsSub xs ys rec manifest key sub due)
  IsRight-IsSub xs ys sub (posted rec review signature)
        (key, manifest, verdict, due, answered, made) =
      (key, manifest, verdict, IsDue-IsSub xs ys rec manifest key sub due, answered, made)

  IsDecided-IsSub :
      (xs ys : Items) (key : Value)
      → IsSub xs ys
      → IsDecided p private_key public_key_b64 hooks now ys key
      → IsDecided p private_key public_key_b64 hooks now xs key
  IsDecided-IsSub xs ys key sub d = record {
    rec = d.rec;
    new = IsNew-IsSub xs ys d.rec key sub d.new;
    decided = elim d.decided [
      | inl past ↦ inl past
      | inr (manifest, answer, due, at) ↦
          inr (manifest, answer, IsDue-IsSub xs ys d.rec manifest key sub due, at)
    ];
  }

  -- The key of a review that was posted is in the list.
  abbrev pub IsMarked : Items → Act → Type 0
  IsMarked processed (asked rec manifest) = Unit
  IsMarked processed (posted rec review signature) =
      (k : String) × (get_attr rec "content_key" (str "") ≡ ok (str k))
      × (has_str processed k ≡ true)

  pub record IsPass (initial : Items) (pass : Pass) : Type 0 where
    pub right : AllOf (IsRight p private_key public_key_b64 hooks now initial) pass.acts
    pub grows : IsSub initial pass.processed
    pub accounted :
        (k : String)
        → has_str pass.processed k ≡ true
        → (has_str initial k ≡ true)
          ⊎ IsDecided p private_key public_key_b64 hooks now initial (str k)
    pub marked : pass.error ≡ none → AllOf (IsMarked pass.processed) pass.acts

  IsMarked-IsSub : (xs ys : Items) (a : Act) → IsSub xs ys → IsMarked xs a → IsMarked ys a
  IsMarked-IsSub xs ys (asked rec manifest) sub h = tt
  IsMarked-IsSub xs ys (posted rec review signature) sub (k, at, there) = (k, at, sub k there)

  ends→IsMarked :
      (processed : Items) (ending : Ending) (a : Act)
      → EndsWith p private_key public_key_b64 hooks now ending a
      → IsMarked (processed_after processed ending) a
  unfolding processed_after
  ends→IsMarked processed ending (asked rec manifest) h = tt
  ends→IsMarked processed ending (posted rec review signature) (k, e, at) = (
    k,
    at,
    subst (λ x. has_str (processed_after processed x) k ≡ true) (sym e) (push_back-has processed k),
  )

  processed_after-IsSub :
      (processed : Items) (ending : Ending) → IsSub processed (processed_after processed ending)
  unfolding processed_after
  processed_after-IsSub processed skipped k h = h
  processed_after-IsSub processed (failed x) k h = h
  processed_after-IsSub processed (finished key) k h = push_back-IsSub processed key k h

  -- What the turn has added to the list is decided.
  processed_after-IsDecided :
      (processed : Items) (t : Turn) (k : String)
      → IsTurn p private_key public_key_b64 hooks now processed t
      → has_str (processed_after processed t.ending) k ≡ true
      → (has_str processed k ≡ true)
        ⊎ IsDecided p private_key public_key_b64 hooks now processed (str k)
  unfolding processed_after
  processed_after-IsDecided processed t k is h = go t.ending refl h
    where
      go :
          (ending : Ending)
          → t.ending ≡ ending
          → has_str (processed_after processed ending) k ≡ true
          → (has_str processed k ≡ true)
            ⊎ IsDecided p private_key public_key_b64 hooks now processed (str k)
      go skipped e there = inl there
      go (failed x) e there = inl there
      go (finished key) e there = elim (push_back-new processed key k there) [
        | inl old ↦ inl old
        | inr same ↦ inr (
            subst (IsDecided p private_key public_key_b64 hooks now processed) same
              (is.decided key e))
      ]

  joined :
      (processed : Items) (t : Turn) (ending : Ending) (rest : Pass)
      → t.ending ≡ ending
      → IsTurn p private_key public_key_b64 hooks now processed t
      → IsPass (processed_after processed ending) rest
      → IsPass processed (record rest { acts = t.acts ++ rest.acts })
  joined processed t ending rest e is next =
      let larger = processed_after-IsSub processed ending in
      record {
        right =
            AllOf-append (IsRight p private_key public_key_b64 hooks now processed) t.acts rest.acts
              is.right
              (AllOf-imp
                (IsRight p private_key public_key_b64 hooks now (processed_after processed ending))
                (IsRight p private_key public_key_b64 hooks now processed) rest.acts
                (IsRight-IsSub processed (processed_after processed ending) larger) next.right);
        grows = λ k h. next.grows k (larger k h);
        accounted = λ k h. elim (next.accounted k h) [
          | inl there ↦
              processed_after-IsDecided processed t k is
                (subst (λ x. has_str (processed_after processed x) k ≡ true) (sym e) there)
          | inr d ↦
              inr (IsDecided-IsSub processed (processed_after processed ending) (str k) larger d)
        ];
        marked = λ no_error.
            AllOf-append (IsMarked rest.processed) t.acts rest.acts
              (AllOf-imp (EndsWith p private_key public_key_b64 hooks now t.ending)
                (IsMarked rest.processed) t.acts
                (λ a h.
                  IsMarked-IsSub (processed_after processed ending) rest.processed a next.grows (
                    subst (λ x. IsMarked (processed_after processed x) a) e
                      (ends→IsMarked processed t.ending a h)))
                is.ends)
              (next.marked no_error);
      }

  -- A turn, and then the rest of the pass
  then_pass-IsPass :
      (processed : Items) (changed : Bool) (t : Turn) (ending : Ending) (rest : Pass)
      → t.ending ≡ ending
      → IsTurn p private_key public_key_b64 hooks now processed t
      → IsPass (processed_after processed ending) rest
      → IsPass processed (then_pass processed changed t.acts ending rest)
  unfolding then_pass
  then_pass-IsPass processed changed t (failed x) rest e is next = record {
    right = is.right;
    grows = λ k h. h;
    accounted = λ k h. inl h;
    marked = λ no_error. absurd (cc);
  }
  then_pass-IsPass processed changed t skipped rest e is next =
      joined processed t skipped rest e is next
  then_pass-IsPass processed changed t (finished key) rest e is next =
      joined processed t (finished key) rest e is next

  pub handle_entries-IsPass :
      (processed : Items) (changed : Bool) (entries : Items)
      → IsPass processed
          (handle_entries p private_key public_key_b64 hooks now processed changed entries)
  unfolding handle_entries
  handle_entries-IsPass processed changed nil = record {
    right = tt;
    grows = λ k h. h;
    accounted = λ k h. inl h;
    marked = λ e. tt;
  }
  handle_entries-IsPass processed changed (cons entry entries) =
      let t = turn p private_key public_key_b64 hooks now processed entry in
      then_pass-IsPass processed changed t t.ending _ refl
        (turn-IsTurn p private_key public_key_b64 hooks now processed entry)
        (handle_entries-IsPass (processed_after processed t.ending)
          (changed || is_finished t.ending) entries)

  pub handle_entries-unchanged :
      (processed : Items) (changed : Bool) (entries : Items)
      → (handle_entries p private_key public_key_b64 hooks now processed changed entries).changed
        ≡ false
      → (changed ≡ false)
        × ((handle_entries p private_key public_key_b64 hooks now processed changed
              entries).processed
            ≡ processed)
  unfolding handle_entries then_pass processed_after is_finished
  handle_entries-unchanged processed changed nil h = (h, refl)
  handle_entries-unchanged processed changed (cons entry entries) h =
      let t = turn p private_key public_key_b64 hooks now processed entry in
      go t.acts t.ending
        (handle_entries p private_key public_key_b64 hooks now (processed_after processed t.ending)
          (changed || is_finished t.ending) entries)
        (handle_entries-unchanged (processed_after processed t.ending)
          (changed || is_finished t.ending) entries)
        h
    where
      go :
          (acts : List Act) (ending : Ending) (rest : Pass)
          → (rest.changed ≡ false
              → ((changed || is_finished ending) ≡ false)
                × (rest.processed ≡ processed_after processed ending))
          → (then_pass processed changed acts ending rest).changed ≡ false
          → (changed ≡ false)
            × ((then_pass processed changed acts ending rest).processed ≡ processed)
      go acts (failed x) rest ih unchanged = (unchanged, refl)
      go acts skipped rest ih unchanged =
          let (flag, same) = ih unchanged in (ground (arith, flag), same)
      go acts (finished key) rest ih unchanged =
          let (flag, same) = ih unchanged in absurd (ground (arith, flag))
