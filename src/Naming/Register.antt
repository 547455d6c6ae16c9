-- ===== src/Naming/Register.antt =====
-- What the naming server of naming.py answers after it has accepted a registration.
use mdp2p.Dict.{lookup, insert}
use mdp2p.Bundle.Paths.Laws.{validate_uri_iff}
use mdp2p.Bundle.Signed.{Verification, refused, valid}
use mdp2p.Bundle.Paths.{UriError, validate_uri}
use mdp2p.Naming.Messages.{ServerError, ok_uri, found, record_and_signature_required}
use mdp2p.Py.Result.{Result, ok, raise, ◌>>=◌, ◌>>◌, >>=-eq-ok, >>-eq-ok}
use mdp2p.Naming.Stores.Disk.{Entry, Outcome, rejected, stored}
use mdp2p.Py.Value.{Value, get_attr, Fields, str, or_empty, get_or, null, slice, truthy}
use mdp2p.Naming.Server.{
  NamingServer, handle_resolve, handle_register, if_valid, if_stored, register_at, register_valid,
  resolve_uri, refuse, with_record, register_uri, Reply, resolve_found,
}
use mdp2p.Prelude.Int.{ℤ}
use mdp2p.Platform.{Platform}
use mdp2p.Prelude.{
  ◌≡◌, refl, true, false, inl, inr, String, Bool, if◌then◌else◌, ◌⊎◌, arith, some, subst, not, ◌||◌,
}
use mdp2p.Naming.Stores.Names
use mdp2p.Dict.Laws.{lookup-insert_self}

module _ (p : Platform) (now : ℤ) (s : NamingServer) where
  -- If the reply is that the address is registered, then the address has that record.
  abbrev pub IsKept : Value → Value → Reply → Type 0
  IsKept rec signature r =
      (uri : String)
      → r.0 ≡ ok (ok_uri uri)
      → (Names.get r.1.store uri ≡ some (record { rec = rec; signature = signature }))
        × (validate_uri (str uri) ≡ inr uri)

  module _ (rec signature : Value) where
    abbrev entry : Entry
    entry = record { rec = rec; signature = signature }

    logged-uri :
        (uri uri' : String)
        → (get_attr rec "manifest_ref" (str "") >>= λ ref. slice ref >> ok (ok_uri uri))
          ≡ ok (ok_uri uri')
        → uri ≡ uri'
    logged-uri uri uri' h =
        let (ref, at, h') = >>=-eq-ok (get_attr rec "manifest_ref" (str "")) _ h in
        let (cut, h'') = >>-eq-ok (slice ref) _ h' in cc

    commit-IsKept :
        (uri : String) (o : Result Outcome)
        → validate_uri (str uri) ≡ inr uri
        → IsKept rec signature (
            if_stored
              (record s { store = (Names.commit s.store uri entry o).1 })
              (Names.commit s.store uri entry o).0
              (get_attr rec "manifest_ref" (str "") >>= λ ref. slice ref >> ok (ok_uri uri)))
    unfolding Names.commit Names.write Names.get if_stored refuse
    commit-IsKept uri (raise x) valid_uri uri' h = absurd (ground (arith, h))
    commit-IsKept uri (ok (rejected x)) valid_uri uri' h = absurd (ground (arith, h))
    commit-IsKept uri (ok stored) valid_uri uri' h =
        subst
          (λ u.
            (lookup u (insert uri entry s.store.records) ≡ some entry)
            × (validate_uri (str u) ≡ inr u))
          (logged-uri uri uri' h) (lookup-insert_self uri entry s.store.records, valid_uri)

    register_at-IsKept :
        (uri : String)
        → validate_uri (str uri) ≡ inr uri
        → IsKept rec signature (register_at p now s rec signature uri)
    unfolding register_at Names.set
    register_at-IsKept uri valid_uri = commit-IsKept uri (Names.check_set s.store uri rec) valid_uri

    if_valid-IsKept :
        (v : Result Verification) (next : Reply)
        → IsKept rec signature next
        → IsKept rec signature (if_valid s v next)
    unfolding if_valid refuse
    if_valid-IsKept (raise x) next k uri h = absurd (ground (arith, h))
    if_valid-IsKept (ok (refused r)) next k uri h = absurd (ground (arith, h))
    if_valid-IsKept (ok valid) next k uri h = k uri h

    register_valid-IsKept :
        (v : Value) (c : UriError ⊎ String)
        → validate_uri v ≡ c
        → IsKept rec signature (register_valid p now s rec signature c)
    unfolding register_valid refuse
    register_valid-IsKept v (inl x) e uri h = absurd (ground (arith, h))
    register_valid-IsKept v (inr u) e uri h =
        let is_text = ((validate_uri_iff v u).0 e).0 in
        if_valid-IsKept _ (register_at p now s rec signature u)
          (register_at-IsKept u (subst (λ w. validate_uri w ≡ inr u) is_text e)) uri h

    register_uri-IsKept :
        (r : Result Value) → IsKept rec signature (register_uri p now s rec signature r)
    unfolding register_uri
    register_uri-IsKept (raise x) uri h = absurd (ground (arith, h))
    register_uri-IsKept (ok v) uri h = register_valid-IsKept v (validate_uri v) refl uri h

    if-IsKept :
        (b : Bool) (x y : Reply)
        → IsKept rec signature x
        → IsKept rec signature y
        → IsKept rec signature (if b then x else y)
    if-IsKept true x y h k = h
    if-IsKept false x y h k = k

    refuse-IsKept : (e : ServerError) → IsKept rec signature (refuse e s)
    unfolding refuse
    refuse-IsKept e uri h = absurd (ground (arith, h))

  handle_register-IsKept :
      (msg : Fields)
      → IsKept
          (or_empty (get_or msg "record" null))
          (get_or msg "signature" (str ""))
          (handle_register p now s msg)
  unfolding handle_register with_record
  handle_register-IsKept msg =
      let rec = or_empty (get_or msg "record" null) in
      let signature = get_or msg "signature" (str "") in
      if-IsKept rec signature (not (truthy rec) || not (truthy signature)) _ _
        (refuse-IsKept rec signature record_and_signature_required)
        (register_uri-IsKept rec signature (get_attr rec "uri" (str "")))

  -- When the server answers that an address is registered, a request that resolves the address right
  -- after gets the record and the signature of the registration.
  pub handle_register-resolve :
      (msg request : Fields) (uri : String)
      → (handle_register p now s msg).0 ≡ ok (ok_uri uri)
      → get_or request "uri" (str "") ≡ str uri
      → (handle_resolve (handle_register p now s msg).1 request).0
        ≡ ok (
            found (record {
              rec = or_empty (get_or msg "record" null);
              signature = get_or msg "signature" (str "");
            }))
  unfolding handle_resolve resolve_uri resolve_found
  handle_register-resolve msg request uri accepted asked =
      let (kept, valid_uri) = handle_register-IsKept msg uri accepted in
      rw (asked, valid_uri, kept) refl
