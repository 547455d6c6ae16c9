-- ===== src/Reader/Laws.antt =====
-- The score from the cache is the score from the naming server.
use mdp2p.Peer.Fetch.{cache_attachments, with_attachments, spot_of, spot_in, Client}
use mdp2p.Bundle.Manifest.{compute_content_key}
use mdp2p.Reader.{
  score_from_cache, load_signals, key_of, signals_for, compute_content_key, policy_or_default,
  store_or_empty, Site, attachments_to_signals, recompute_content_key,
}
use mdp2p.Prelude.Int.{ℤ}
use mdp2p.Naming.Stores.Disk.{File}
use mdp2p.Trust.Floats.{Floats}
use mdp2p.Platform.{Platform}
use mdp2p.Naming.Client.{iterate, client_get_attachments}
use mdp2p.Peer.Score.{records_of, score_record, score_signals, entries_listed}
use Prim.Native.String.append
use mdp2p.Prelude.{
  inl, inr, true, false, refl, String, ◌≡◌, if◌then◌else◌, Bool, some, ap, ◌∙◌, sym, eq_iff,
  Bool-cases, Char,
}
use Prim.Native.String.{◌++◌ as append}
use mdp2p.Prelude.{◌≢◌, ◌==◌}
use mdp2p.Dict.Laws.{lookup-insert_self}
use mdp2p.Py.Result.{◌>>=◌, >>=-assoc}
use mdp2p.Py.Value.{null, str, nil, field, end, arr, get_or, Fields, get, truthy, Value, obj, item}
use mdp2p.Py.Result.{ok, Result}

-- What `_cache_attachments` writes
abbrev pub cached_file : String → Fields → Fields
cached_file content_key reply = field "content_key" (str content_key) (
    field "records"
      (if truthy (get_or reply "records" null) then get_or reply "records" null else arr nil) end)

records_of-cached_file :
    (content_key : String) (reply : Fields)
    → records_of (cached_file content_key reply) ≡ records_of reply
unfolding records_of get_or get truthy
records_of-cached_file content_key reply = go (get_or reply "records" null)
  where
    go :
        (v : Value)
        → (if truthy (if truthy v then v else arr nil)
            then iterate (if truthy v then v else arr nil)
            else ok nil)
          ≡ (if truthy v then iterate v else ok nil)
    go v = choose (truthy v) refl
      where
        choose :
            (b : Bool)
            → truthy v ≡ b
            → (if truthy (if b then v else arr nil)
                then iterate (if b then v else arr nil)
                else ok nil)
              ≡ (if b then iterate v else ok nil)
        choose true e = rw e refl
        choose false e = refl

append-cons : (c : Char) (s t : String) → append (String.◌∷◌ c s) t ≡ String.◌∷◌ c (append s t)
append-cons c s t = λ i. Prim.Native.String.append.cons c s t i

not_empty : (s t : String) → s ≢ "" → (append s t == "") ≡ false
not_empty String.[] t h = absurd (h refl)
not_empty (String.◌∷◌ c s) t h = elim (Bool-cases (append (String.◌∷◌ c s) t == "")) [
  | inl e ↦ absurd (nowhere (sym (append-cons c s t) ∙ (eq_iff (append (String.◌∷◌ c s) t) "").0 e))
  | inr e ↦ e
]
  where
    nowhere : String.◌∷◌ c (append s t) ≢ ""
    nowhere e = cc

module _ (p : Platform) (f : Floats) (policy_file store_file : File Value) (now : ℤ) where
  key_of-content_key :
      (site : Site) (uri : String) (key : Value)
      → key_of p site (str (compute_content_key p (str uri) key))
        ≡ ok (some (compute_content_key p (str uri) key))
  unfolding key_of compute_content_key
  key_of-content_key site uri key =
      ap
        (λ b.
          if b
          then recompute_content_key p site
          else ok (some (compute_content_key p (str uri) key)))
        (not_empty "/mdp2p/" _ (λ e. cc))

  load_signals-cached_file :
      (site : Site) (uri : String) (key : Value) (reply : Fields)
      → load_signals p site (some (obj (cached_file (compute_content_key p (str uri) key) reply)))
        ≡ (records_of reply >>= λ entries.
            attachments_to_signals p entries (compute_content_key p (str uri) key))
  unfolding load_signals signals_for get_or get
  load_signals-cached_file site uri key reply =
      let content_key = compute_content_key p (str uri) key in
      ap (λ r. r >>= signals_for p (cached_file content_key reply))
        (key_of-content_key site uri key)
      ∙ ap (λ r. r >>= λ entries. attachments_to_signals p entries content_key)
          (records_of-cached_file content_key reply)

  -- A site that is in place and whose attachments were cached as the naming server lists them: without a
  -- connection, with the same policy and trust store and at the same time, the client scores it as it
  -- does with one, when the naming record has the key that the cache was made for.
  pub score_from_cache-score_record :
      (c : Client) (dir uri : String) (rec key : Value) (reply : Fields) (site : Site)
      (rpc : Fields → Result Fields)
      → (spot_of c.spots dir).current ≡ some site
      → item rec "public_key" ≡ ok key
      → client_get_attachments rpc (compute_content_key p (str uri) key) ≡ ok reply
      → (cached : Site) × ((spot_of
            (cache_attachments dir
              (compute_content_key p (str uri) key)
              (client_get_attachments rpc (compute_content_key p (str uri) key))
              c).spots
            dir).current
          ≡ some cached)
        × (score_from_cache p f now cached (some policy_file) (some store_file)
            ≡ score_record p f policy_file store_file now rpc uri rec)
  unfolding score_from_cache score_record score_signals policy_or_default store_or_empty
      entries_listed cache_attachments with_attachments spot_of spot_in
  score_from_cache-score_record c dir uri rec key reply site rpc at key_at listed_at = (
    record site {
      attachments = some (obj (cached_file (compute_content_key p (str uri) key) reply));
    },
    rw (listed_at, lookup-insert_self dir _ c.spots, at) refl,
    ap (λ r. r >>= score_signals p f policy_file store_file now)
          (load_signals-cached_file _ uri key reply)
        ∙ >>=-assoc (records_of reply)
            (λ entries. attachments_to_signals p entries (compute_content_key p (str uri) key))
            (score_signals p f policy_file store_file now)
        ∙ sym online,
  )
    where
      online : score_record p f policy_file store_file now rpc uri rec ≡ (
          records_of reply >>= λ entries.
          (attachments_to_signals p entries (compute_content_key p (str uri) key)
            >>= score_signals p f policy_file store_file now))
      online = rw (key_at, listed_at) refl
