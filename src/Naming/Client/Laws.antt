-- ===== src/Naming/Client/Laws.antt =====
-- The listing that a client collects over the pages of the server.
use mdp2p.Py.Value.Laws.{get-with_field}
use mdp2p.Py.Number.{to_int}
use mdp2p.Naming.Server.{NamingServer, handle_list, answer}
use native.Mathlib.Numerals.{unary_clauses}
use mdp2p.Naming.Stores.Names
use mdp2p.Naming.Page.{
  page, paginate, asked, default_page_size, int_field, or_defaults, clamp_limit,
}
use mdp2p.Naming.Messages.{to_items, offset_value, encode, names}
use mdp2p.Naming.Client.{
  merged, append, extend, Result, Items, iterate, Value, with_field, null, truthy, int, follow, pos,
  ok, is_text, is_int, client_list, ◌>>=◌, rpc_all_pages, type_request, max_pages,
}
use mdp2p.Prelude.{
  [], ◌∷◌, suc, zero, ℕ, List, ◌≡◌, length, take, String, drop, ap, ◌≤◌, ◌+◌, if◌then◌else◌, ◌*◌,
  arith, false, Bool-cases, ltb, ◌==◌, refl, ◌∙◌, ◌<◌, inl, true, sym, ltb→lt, inr,
}
use mdp2p.Py.Value.{nil, cons, arr, Fields, get_or, get, truthy, end, is_text, with_field}

append_nil : (xs : Items) → append xs nil ≡ xs
unfolding append
append_nil nil = refl
append_nil (cons x xs) = ap (cons x) (append_nil xs)

append_assoc : (xs ys zs : Items) → append (append xs ys) zs ≡ append xs (append ys zs)
unfolding append
append_assoc nil ys zs = refl
append_assoc (cons x xs) ys zs = ap (cons x) (append_assoc xs ys zs)

to_items-take-drop :
    (n : ℕ) (xs : List Value) → append (to_items (take n xs)) (to_items (drop n xs)) ≡ to_items xs
unfolding append to_items
to_items-take-drop zero xs = refl
to_items-take-drop (suc n) [] = refl
to_items-take-drop (suc n) (x ∷ xs) = ap (cons x) (to_items-take-drop n xs)

drop-drop : (m n : ℕ) (xs : List Value) → drop n (drop m xs) ≡ drop (m + n) xs
drop-drop zero n xs = let e : n ≡ 0 + n = omega arith in ap (λ k. drop k xs) e
drop-drop (suc m) zero [] = simp unary_clauses
drop-drop (suc m) (suc n) [] = simp unary_clauses
drop-drop (suc m) n (x ∷ xs) =
    let e : suc (m + n) ≡ suc m + n = omega arith in drop-drop m n xs ∙ ap (λ k. drop k (x ∷ xs)) e

drop-all : (n : ℕ) (xs : List Value) → length xs ≤ n → drop n xs ≡ []
drop-all zero [] h = refl
drop-all zero (x ∷ xs) h = absurd (omega (arith, h))
drop-all (suc n) [] h = refl
drop-all (suc n) (x ∷ xs) h = drop-all n xs (omega (arith, h))

extend-arr : (records xs : Items) → extend records (arr xs) ≡ ok (append records xs)
unfolding extend iterate truthy
extend-arr records nil = refl
extend-arr records (cons x xs) = refl

-- The records of a merged reply
get_or-with_field :
    (fs : Fields) (k j : String) (v : Value)
    → get_or (with_field fs k v) j null ≡ (if k == j then v else get_or fs j null)
unfolding get_or
get_or-with_field fs k j v = ground (arith, get-with_field fs k j v)

merged-records :
    (reply : Fields) (records : Items) → get_or (merged reply records) "records" null ≡ arr records
unfolding merged
merged-records reply records = simp (get_or-with_field)

-- A reply of a server that sends the page at each offset
pub record IsPaged (rpc : Fields → Result Fields) (request : Fields) (items : List Value)
    (limit : ℕ) (offset : ℕ) : Type 0 where
  pub reply : Fields
  pub served : rpc (with_field request "offset" (int (pos offset))) ≡ ok reply
  pub no_error : is_text (get_or reply "type" null) "error" ≡ false
  pub records_at : get_or reply "records" null ≡ arr (to_items (page items offset limit).0)
  pub next_at : get_or reply "next_offset" null ≡ offset_value (page items offset limit).1

left_over : (n limit o len : ℕ) → len ≤ o + suc n * limit → len ≤ o + limit + n * limit
left_over n limit o len h = omega (arith, h)

positive : (n limit o len : ℕ) → len ≤ o + limit + n * limit → o + limit < len → 1 ≤ n
positive zero limit o len h k = absurd (omega (arith, h, k))
positive (suc n) limit o len h k = omega arith

module _ (rpc : Fields → Result Fields) (request : Fields) (items : List Value) (limit : ℕ) where
  module _ (paged : (offset : ℕ) → IsPaged rpc request items limit offset) where
    next-more :
        (o : ℕ)
        → ltb (o + limit) (length items) ≡ true
        → get_or (paged o).reply "next_offset" null ≡ int (pos (o + limit))
    unfolding page offset_value
    next-more o h = ground (arith, h, (paged o).next_at)

    next-done :
        (o : ℕ)
        → ltb (o + limit) (length items) ≡ false
        → get_or (paged o).reply "next_offset" null ≡ null
    unfolding page offset_value
    next-done o h = ground (arith, h, (paged o).next_at)

    records-page :
        (o : ℕ) (records : Items)
        → extend records (get_or (paged o).reply "records" null)
          ≡ ok (append records (to_items (take limit (drop o items))))
    records-page o records =
        ap (extend records) (paged o).records_at ∙ unfold page in extend-arr records _

    -- The records of one page, then those of the pages after it
    page-rest :
        (o : ℕ) (records : Items)
        → append
            (append records (to_items (take limit (drop o items))))
            (to_items (drop (o + limit) items))
          ≡ append records (to_items (drop o items))
    page-rest o records =
        append_assoc records _ _
        ∙ ap (append records) (
            ap (λ x. append (to_items (take limit (drop o items))) (to_items x))
              (sym (drop-drop o limit items))
            ∙ to_items-take-drop limit (drop o items))

    page-last :
        (o : ℕ) (records : Items)
        → ltb (o + limit) (length items) ≡ false
        → append records (to_items (take limit (drop o items)))
          ≡ append records (to_items (drop o items))
    unfolding to_items append
    page-last o records h =
        sym (append_nil _)
        ∙ ap (λ x. append (append records (to_items (take limit (drop o items)))) (to_items x))
            (sym (drop-all (o + limit) items (ground (arith, h))))
        ∙ page-rest o records

    -- Enough runs of the loop collect what is left from the offset on.
    pub follow-pages :
        (n offset : ℕ) (records : Items) (response : Fields)
        → length items ≤ offset + n * limit
        → 1 ≤ n
        → (fs : Fields) × (follow rpc request n records (int (pos offset)) response ≡ ok fs)
          × (get_or fs "records" null ≡ arr (append records (to_items (drop offset items))))
    unfolding follow is_int
    follow-pages zero offset records response enough some_left = absurd (omega (arith, some_left))
    follow-pages (suc n) offset records response enough some_left =
        let q = paged offset in
        let got = append records (to_items (take limit (drop offset items))) in
        elim (Bool-cases (ltb (offset + limit) (length items))) [
          | inl more ↦
              let enough' = left_over n limit offset (length items) enough in
              let (fs, collected, all) =
                follow-pages n (offset + limit) got q.reply enough'
                  (positive n limit offset (length items) enough' (ltb→lt _ _ more)) in
              (
                fs,
                rw (q.served, q.no_error, records-page offset records, next-more offset more)
                    collected,
                all ∙ ap arr (page-rest offset records),
              )
          | inr done ↦ (
            merged q.reply got,
            rw (q.served, q.no_error, records-page offset records, next-done offset done) refl,
            merged-records q.reply got ∙ ap arr (page-last offset records done),
          )
        ]

-- What the server answers to a request for a list of names, before its size is looked at
abbrev pub list_rpc : NamingServer → Fields → Result Fields
list_rpc s msg = (handle_list s msg).0 >>= λ r. ok (encode r)

names-IsPaged :
    (s : NamingServer) (offset : ℕ)
    → IsPaged
        (list_rpc s)
        (type_request "list")
        (Names.list_records s.store)
        default_page_size
        offset
unfolding handle_list answer paginate asked int_field or_defaults encode get_or get with_field
    type_request to_int is_text page clamp_limit
names-IsPaged s offset = record {
  reply = encode (
      names (take 500 (drop offset (Names.list_records s.store)))
        (page (Names.list_records s.store) offset 500).1);
  served = refl;
  no_error = refl;
  records_at = refl;
  next_at = refl;
}

-- If every reply of the server reaches the client, `client_list` returns the records of all the names,
-- in the server's order, for up to 500,000 names: the pages neither overlap nor leave a gap.
pub client_list-records :
    (s : NamingServer)
    → length (Names.list_records s.store) ≤ 500000
    → (fs : Fields) × (client_list (list_rpc s) ≡ ok fs)
      × (get_or fs "records" null ≡ arr (to_items (Names.list_records s.store)))
unfolding client_list rpc_all_pages append
client_list-records s h =
    follow-pages (list_rpc s) (type_request "list") (Names.list_records s.store) default_page_size
      (names-IsPaged s) max_pages 0 nil end (omega (arith, h)) (omega arith)
