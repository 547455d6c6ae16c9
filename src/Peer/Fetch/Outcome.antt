-- ===== src/Peer/Fetch/Outcome.antt =====
-- What `fetch_site` guarantees, whatever the naming server, the seeders, the DHT and the disk do.
use mdp2p.Py.Text.{codes}
use mdp2p.Bundle.Signed.{valid}
use mdp2p.Peer.Fetch.Secured.{on_seeders-IsOutcome}
use mdp2p.Peer.Fetch.Laws.{IsNamed, IsOutcome}
use mdp2p.Bundle.Paths.{validate_uri, UriError, not_a_text, check_uri}
use mdp2p.Peer.Fetch.{
  Surroundings, Client, Fields, validate_uri, on_named, if_named, on_resolved, name_record_of,
  on_uri, fetch_site, is_text, Value, Named, with_naming, Verification, client_resolve, item,
  give_up, verify_name_record, refused, not, get_or, get_attr, as_key,
}
use mdp2p.Prelude.Int.{ℤ}
use mdp2p.Platform.{Platform}
use mdp2p.Prelude.{
  ◌⊎◌, refl, inl, inr, none, some, true, false, ap, sym, ◌∙◌, Bool, String, List, ◌≡◌, Option,
  if◌then◌else◌, eq_iff, subst, some_injective,
}
use mdp2p.Prelude.{◌==◌}
use mdp2p.Py.Value.Laws.{as_key-ok}
use mdp2p.Py.Value.{null, str, obj, is_text}
use mdp2p.Py.Result.{Result, ok, raise, >>=-eq-ok, ok_injective}

module _ (p : Platform) (now : ℤ) (w : Surroundings) (announce_after : Bool) (c : Client)
    (uri : String) (rpc : Fields → Result Fields) where
  text_at : (v : Value) (s : String) → is_text v s ≡ true → v ≡ str s
  unfolding is_text
  text_at (str t) s h = ap str ((eq_iff t s).0 h)
  text_at null s h = cc
  text_at _ s h = cc

  if_named→ :
      (reply : Fields) (rec signature : Value) (v : Verification) (named : Named)
      → client_resolve rpc uri ≡ ok reply
      → item (obj reply) "record" ≡ ok rec
      → item (obj reply) "signature" ≡ ok signature
      → verify_name_record p now none rec signature ≡ ok v
      → if_named p now v rec uri ≡ ok (some named)
      → IsNamed p now w announce_after c uri rpc named
  unfolding if_named
  if_named→ reply rec signature (refused r) named resolved rec_at signature_at verified e =
      absurd (cc)
  if_named→ reply rec signature valid named resolved rec_at signature_at verified e =
      let (u, u_at, e₁) = >>=-eq-ok (get_attr rec "uri" null) _ e in
      let (same_uri, e₂) = unless (is_text u uri) _ e₁ in
      let (v, v_at, e₃) = >>=-eq-ok (item rec "public_key") _ e₂ in
      let (key, key_at, e₄) = >>=-eq-ok (as_key v) _ e₃ in
      let (manifest_ref, ref_at, e₅) = >>=-eq-ok (item rec "manifest_ref") _ e₄ in
      let (author, author_at, e₆) = >>=-eq-ok (get_attr rec "author" (str "unknown")) _ e₅ in
      subst (IsNamed p now w announce_after c uri rpc) (some_injective _ _ (ok_injective _ _ e₆))
        record {
          reply = reply;
          resolved = resolved;
          rec_at = rec_at;
          signature = signature;
          signature_at = signature_at;
          verified = verified;
          names = u_at ∙ ap ok (text_at u uri same_uri);
          key_at = v_at ∙ ap ok (as_key-ok v key key_at);
          ref_at = ref_at;
        }
    where
      unless :
          (b : Bool) (next : Result (Option Named))
          → (if not b then ok none else next) ≡ ok (some named)
          → (b ≡ true) × (next ≡ ok (some named))
      unless true next h = (refl, h)
      unless false next h = absurd (cc)

  name_record_of→ :
      (reply : Fields) (named : Named)
      → client_resolve rpc uri ≡ ok reply
      → name_record_of p now reply uri ≡ ok (some named)
      → IsNamed p now w announce_after c uri rpc named
  unfolding name_record_of
  name_record_of→ reply named resolved e =
      let (rec, rec_at, e₁) = >>=-eq-ok (item (obj reply) "record") _ e in
      let (signature, signature_at, e₂) = >>=-eq-ok (item (obj reply) "signature") _ e₁ in
      let (v, verified, e₃) = >>=-eq-ok (verify_name_record p now none rec signature) _ e₂ in
      if_named→ reply rec signature v named resolved rec_at signature_at verified e₃

  on_named-IsOutcome :
      (reply : Fields) (addrs : List String) (r : Result (Option Named))
      → client_resolve rpc uri ≡ ok reply
      → name_record_of p now reply uri ≡ r
      → IsOutcome p now w announce_after c uri rpc
          (on_named p now w announce_after c uri rpc addrs r)
  unfolding on_named
  on_named-IsOutcome reply addrs (raise x) resolved at = inl (refl, refl)
  on_named-IsOutcome reply addrs (ok none) resolved at = (refl, refl)
  on_named-IsOutcome reply addrs (ok (some named)) resolved at =
      on_seeders-IsOutcome p now w announce_after c uri rpc named
        (name_record_of→ reply named resolved at) _

  on_resolved-IsOutcome :
      (addrs : List String) (r : Result Fields)
      → client_resolve rpc uri ≡ r
      → IsOutcome p now w announce_after c uri rpc
          (on_resolved p now w announce_after c uri rpc addrs r)
  unfolding on_resolved
  on_resolved-IsOutcome addrs (raise x) at = inl (refl, refl)
  on_resolved-IsOutcome addrs (ok reply) at =
      choose (not (is_text (get_or reply "type" null) "record")) _
        (on_named-IsOutcome reply addrs _ at refl)
    where
      choose :
          (b : Bool) (next : Client × Result Bool)
          → IsOutcome p now w announce_after c uri rpc next
          → IsOutcome p now w announce_after c uri rpc (if b then give_up c else next)
      choose true next h = (refl, refl)
      choose false next h = h

  validate_uri-same : (u : String) → validate_uri (str uri) ≡ inr u → uri ≡ u
  unfolding validate_uri
  validate_uri-same u e = go (uri == "") (check_uri (codes uri)) e
    where
      go :
          (b : Bool) (o : Option UriError)
          → (if b then inl not_a_text else elim o [ none ↦ inr uri | some x ↦ inl x ]) ≡ inr u
          → uri ≡ u
      go true o e = cc
      go false none e = cc
      go false (some x) e = cc

  on_uri-IsOutcome :
      (addrs : List String) (r : UriError ⊎ String)
      → w.naming ≡ some rpc
      → ((u : String) → r ≡ inr u → uri ≡ u)
      → IsOutcome p now w announce_after c uri rpc (on_uri p now w announce_after r c addrs)
  unfolding on_uri with_naming
  on_uri-IsOutcome addrs (inl e) configured same = inl (refl, refl)
  on_uri-IsOutcome addrs (inr u) configured same =
      subst
        (λ x.
          IsOutcome p now w announce_after c uri rpc
            (with_naming p now w announce_after w.naming c x addrs))
        (same u refl)
        (subst
          (λ n.
            IsOutcome p now w announce_after c uri rpc
              (with_naming p now w announce_after n c uri addrs))
          (sym configured) (on_resolved-IsOutcome addrs _ refl))

  -- A client with a naming server. Whatever that server, the seeders, the DHT and the disk do, the pins
  -- and the sites of the client change only if: the server's record is signed by the key in it and is
  -- for the address asked for; the pin store could be read and holds no other key and no newer record
  -- for it; a seeder's bundle has a manifest that this key signed, with the reference of the record,
  -- for the address and not expired; the site's directory holds that manifest and exactly its files;
  -- and the key is pinned, or its mark moved. `fetch_site` returns True only then, and False only with
  -- the pins and the sites of before; an exception leaves one or the other.
  pub fetch_site-IsOutcome :
      (addrs : List String)
      → w.naming ≡ some rpc
      → IsOutcome p now w announce_after c uri rpc (fetch_site p now w announce_after c uri addrs)
  unfolding fetch_site
  fetch_site-IsOutcome addrs configured =
      on_uri-IsOutcome addrs (validate_uri (str uri)) configured validate_uri-same
