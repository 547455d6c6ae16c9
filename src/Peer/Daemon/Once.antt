-- ===== src/Peer/Daemon/Once.antt =====
-- One pass of the reviewer's daemon after another: no assignment is decided on twice.
use mdp2p.Peer.Daemon.Passes.{IsMarked, IsPass, handle_entries-IsPass, handle_entries-unchanged}
use mdp2p.Peer.Daemon.Turns.{IsRight, IsDecided, IsNew}
use mdp2p.Prelude.{
  String, List, ◌≡◌, Option, refl, AllOf, true, ◌⊎◌, inl, ◌∷◌, ◌++◌, false, AllOf-append, sym,
  AllOf-imp, subst, Bool, [], ◌∙◌, if◌then◌else◌, AllOf-at, arith,
}
use mdp2p.Peer.Daemon.Processed.{IsSub}
use mdp2p.Platform.{Platform}
use mdp2p.Naming.Stores.Disk.{absent, unreadable}
use mdp2p.Peer.Daemon.{
  load_cache, processed_in, Fields, File, Value, Hooks, Items, ℤ, holds, with_field, Act, none,
  some, Pass, is_processed, poll_once, saved, asked, is_list, items_of, poll_entries, get_attr,
  posted, handle_entries, inbox_entries, client_list_assignments,
}
use mdp2p.Py.Value.Laws.{get_or-with_field}
use mathlib.Core.List.{Memᴰ}
use mdp2p.Py.Value.{null, str, obj, arr, nil, has_str, is_list}
use mdp2p.Py.Result.{Exc, Result, ok, raise, ok_injective}

-- What is written is what the next pass reads.
processed_in-holds :
    (fs : Fields) (xs : Items)
    → processed_in (holds (obj (with_field fs "processed" (arr xs)))) ≡ xs
unfolding processed_in load_cache is_list items_of
processed_in-holds fs xs =
    rw
      (
        get_or-with_field fs "processed" "processed" (arr xs) null,
        get_or-with_field fs "processed" "processed" (arr xs) (arr nil),
      )
      refl

-- The list in the file after a pass is the list of the pass.
processed_in-saved :
    (file : File Value) (pass : Pass)
    → pass.error ≡ none
    → (pass.changed ≡ false → pass.processed ≡ processed_in file)
    → processed_in (saved file pass) ≡ pass.processed
unfolding saved
processed_in-saved file pass no_error same = rw no_error (choose pass.changed refl)
  where
    choose :
        (b : Bool)
        → pass.changed ≡ b
        → processed_in (
            if b
            then holds (obj (with_field (load_cache file) "processed" (arr pass.processed)))
            else file)
          ≡ pass.processed
    choose true e = processed_in-holds (load_cache file) pass.processed
    choose false e = sym (same e)

module _ (p : Platform) (private_key : p.PrivateKey) (public_key_b64 : String) where
  -- One cycle of `_poll_loop`: what the daemon is given in it, the server's answer, the time, and
  -- whether the disk lets it read and write the file
  pub record Cycle : Type 0 where
    pub hooks : Hooks
    pub rpc : Fields → Result Fields
    pub now : ℤ
    pub readable : Bool
    pub writable : Bool

  -- What a pass leaves, whatever it is given
  pub record IsPoll (hooks : Hooks) (now : ℤ) (file : File Value)
      (result : File Value × List Act × Option Exc) : Type 0 where
    pub right : AllOf (IsRight p private_key public_key_b64 hooks now (processed_in file)) result.1
    pub grows : IsSub (processed_in file) (processed_in result.0)
    pub accounted :
        (k : String)
        → has_str (processed_in result.0) k ≡ true
        → (has_str (processed_in file) k ≡ true)
          ⊎ IsDecided p private_key public_key_b64 hooks now (processed_in file) (str k)
    pub marked :
        result.2 ≡ none
        → AllOf (IsMarked p private_key public_key_b64 hooks now (processed_in result.0)) result.1
    pub unsaved : (x : Exc) → result.2 ≡ some x → result.0 ≡ file

  -- A pass that failed
  unsaved-IsPoll :
      (hooks : Hooks) (now : ℤ) (file : File Value) (acts : List Act) (x : Exc)
      → AllOf (IsRight p private_key public_key_b64 hooks now (processed_in file)) acts
      → IsPoll hooks now file (file, acts, some x)
  unsaved-IsPoll hooks now file acts x right = record {
    right = right;
    grows = λ k h. h;
    accounted = λ k h. inl h;
    marked = λ e. absurd (cc);
    unsaved = λ y e. refl;
  }

  pass-IsPoll :
      (hooks : Hooks) (now : ℤ) (file : File Value) (pass : Pass)
      → IsPass p private_key public_key_b64 hooks now (processed_in file) pass
      → (pass.changed ≡ false → pass.processed ≡ processed_in file)
      → (o : Option Exc) → pass.error ≡ o
      → IsPoll hooks now file (saved file pass, pass.acts, o)
  pass-IsPoll hooks now file pass is same (some x) e =
      subst (λ f. IsPoll hooks now file (f, pass.acts, some x)) (sym (kept e))
        (unsaved-IsPoll hooks now file pass.acts x is.right)
    where
      kept : pass.error ≡ some x → saved file pass ≡ file
      kept e = unfold saved in rw e refl
  pass-IsPoll hooks now file pass is same none e =
      let at : processed_in (saved file pass) ≡ pass.processed =
        processed_in-saved file pass e same in
      record {
        right = is.right;
        grows = subst (IsSub (processed_in file)) (sym at) is.grows;
        accounted = λ k h. is.accounted k (subst (λ xs. has_str xs k ≡ true) at h);
        marked = λ no_error.
            subst (λ xs. AllOf (IsMarked p private_key public_key_b64 hooks now xs) pass.acts)
              (sym at) (is.marked e);
        unsaved = λ x some_error. absurd (cc);
      }

  -- Whatever the server lists: a pass asks the callback only about assignments that verify, are not
  -- past their deadline and not processed yet, and whose manifest was fetched; what it posts is the
  -- signed review of an answer; no key is forgotten, and one is added only if a verified assignment
  -- under it is past its deadline or was answered, so that a failed fetch or callback leaves it for
  -- later; after a pass that ends, what was posted is processed; and a pass that raises leaves the file
  -- as it was.
  pub poll_once-IsPoll :
      (hooks : Hooks) (rpc : Fields → Result Fields) (now : ℤ) (file : File Value)
      → IsPoll hooks now file (poll_once p private_key public_key_b64 hooks rpc now file)
  unfolding poll_once
  poll_once-IsPoll hooks rpc now file = go (
      inbox_entries p private_key public_key_b64 hooks (client_list_assignments rpc public_key_b64))
    where
      go :
          (listed : Result Items)
          → IsPoll hooks now file (poll_entries p private_key public_key_b64 hooks now file listed)
      go (raise x) = unfold poll_entries in unsaved-IsPoll hooks now file [] x tt
      go (ok entries) =
          unfold poll_entries in
          let pass =
            handle_entries p private_key public_key_b64 hooks now (processed_in file) false
              entries in
          pass-IsPoll hooks now file pass
            (handle_entries-IsPass p private_key public_key_b64 hooks now (processed_in file) false
              entries)
            (λ e.
              (handle_entries-unchanged p private_key public_key_b64 hooks now (processed_in file)
                false entries e).1)
            pass.error refl

  -- The act is on an assignment of this content.
  abbrev pub IsAbout : String → Act → Type 0
  IsAbout k (asked rec manifest) = get_attr rec "content_key" (str "") ≡ ok (str k)
  IsAbout k (posted rec review signature) = get_attr rec "content_key" (str "") ≡ ok (str k)

  -- What `_load_cache` makes of the file in a cycle
  unfoldable pub file_seen : Bool → File Value → File Value
  file_seen true file = file
  file_seen false file = unreadable

  -- The file after a cycle: what `_save_cache` has put in its place, if it was called and came through
  unfoldable pub file_left : Bool → File Value → File Value → File Value
  file_left true before (holds cache) = holds cache
  file_left true before absent = before
  file_left true before unreadable = before
  file_left false before after = before

  -- `_poll_loop`: whether a cycle raises or not, the next one begins with the file that is there.
  unfoldable pub poll_loop : List Cycle → File Value → File Value × List Act
  poll_loop [] file = (file, [])
  poll_loop (c ∷ cycles) file =
      let one =
        poll_once p private_key public_key_b64 c.hooks c.rpc c.now (file_seen c.readable file) in
      let rest = poll_loop cycles (file_left c.writable file one.0) in (rest.0, one.1 ++ rest.1)

  new_elsewhere :
      (hooks : Hooks) (now : ℤ) (processed : Items) (k : String) (rec key : Value)
      → has_str processed k ≡ true
      → IsNew p private_key public_key_b64 hooks now processed rec key
      → ¬ (get_attr rec "content_key" (str "") ≡ ok (str k))
  unfolding is_processed
  new_elsewhere hooks now processed k rec key there new about =
      let same : key ≡ str k = ok_injective key (str k) (sym new.key_at ∙ about) in
      let not_there : has_str processed k ≡ false =
        subst (λ x. is_processed x processed ≡ false) same new.unprocessed in
      absurd (ground (arith, there, not_there))

  IsRight→not-IsAbout :
      (hooks : Hooks) (now : ℤ) (processed : Items) (k : String)
      → has_str processed k ≡ true
      → (a : Act) → IsRight p private_key public_key_b64 hooks now processed a
      → ¬ IsAbout k a
  IsRight→not-IsAbout hooks now processed k there (asked rec manifest) (key, due) about =
      new_elsewhere hooks now processed k rec key there due.new about
  IsRight→not-IsAbout hooks now processed k there (posted rec review signature)
        (key, manifest, verdict, due, answered, made) about =
      new_elsewhere hooks now processed k rec key there due.new about

  there-file_left :
      (w : Bool) (before after : File Value) (k : String)
      → has_str (processed_in before) k ≡ true
      → has_str (processed_in after) k ≡ true
      → has_str (processed_in (file_left w before after)) k ≡ true
  unfolding file_left
  there-file_left true before (holds cache) k old new = new
  there-file_left true before absent k old new = old
  there-file_left true before unreadable k old new = old
  there-file_left false before after k old new = old

  poll_loop-not-IsAbout :
      (cycles : List Cycle) (file : File Value) (k : String)
      → AllOf (λ c. c.readable ≡ true) cycles
      → has_str (processed_in file) k ≡ true
      → AllOf (λ a. ¬ IsAbout k a) (poll_loop cycles file).1
  unfolding poll_loop
  poll_loop-not-IsAbout [] file k readable there = tt
  poll_loop-not-IsAbout (c ∷ cycles) file k readable there =
      let seen = file_seen c.readable file in
      let same : seen ≡ file = unfold file_seen in rw readable.0 refl in
      let seen_there = subst (λ f. has_str (processed_in f) k ≡ true) (sym same) there in
      let is = poll_once-IsPoll c.hooks c.rpc c.now seen in
      let one = poll_once p private_key public_key_b64 c.hooks c.rpc c.now seen in
      let left = file_left c.writable file one.0 in
      AllOf-append (λ a. ¬ IsAbout k a) one.1 (poll_loop cycles left).1
        (AllOf-imp (IsRight p private_key public_key_b64 c.hooks c.now (processed_in seen))
          (λ a. ¬ IsAbout k a) one.1
          (IsRight→not-IsAbout c.hooks c.now (processed_in seen) k seen_there) is.right)
        (poll_loop-not-IsAbout cycles left k readable.1
          (there-file_left c.writable file one.0 k there (is.grows k seen_there)))

  -- A review that was posted in a pass which ended is the last word on its content, provided that the
  -- file can be read in each later cycle: whatever the server lists in them and whether they raise or
  -- cannot write the file, none of them asks about that content or posts for it again.
  pub poll_loop-once :
      (c : Cycle) (cycles : List Cycle) (file after : File Value) (acts : List Act) (rec : Value)
      (review : Fields) (signature : String)
      → AllOf (λ c. c.readable ≡ true) cycles
      → poll_once p private_key public_key_b64 c.hooks c.rpc c.now file ≡ (after, acts, none)
      → Memᴰ (posted rec review signature) acts
      → (k : String) × (get_attr rec "content_key" (str "") ≡ ok (str k))
        × AllOf (λ a. ¬ IsAbout k a) (poll_loop cycles after).1
  poll_loop-once c cycles file after acts rec review signature readable e m =
      let is = subst (IsPoll c.hooks c.now file) e (poll_once-IsPoll c.hooks c.rpc c.now file) in
      let (k, at, there) =
        AllOf-at (IsMarked p private_key public_key_b64 c.hooks c.now (processed_in after)) acts
          (posted rec review signature) (is.marked refl) m in
      (k, at, poll_loop-not-IsAbout cycles after k readable there)
