-- ===== src/Wire/Reads.antt =====
-- `read_exact` of wire.py gets its bytes however they are cut into chunks.
use mdp2p.Wire.{read, put_back, read_loop, Stream, read_exact}
use mdp2p.Prelude.{
  [], ◌∷◌, List, ℕ, ◌++◌, ◌<◌, length, ◌≡◌, drop, refl, ap, arith, ◌≤◌, take, length-take, ap₂,
  some, ◌∙◌, sym, take-append-drop, suc, subst, ◌-◌, ◌+◌, eqb, false, length-append, zero,
}

-- The bytes of a list of chunks
abbrev pub join : List (List ℕ) → List ℕ
join [] = []
join (c ∷ cs) = c ++ join cs

-- No chunk is empty: the stream has not ended.
abbrev pub AllFull : List (List ℕ) → Type 0
AllFull [] = Unit
AllFull (c ∷ cs) = (0 < length c) × AllFull cs

pub append_assoc : {A : Type 0} (xs ys zs : List A) → (xs ++ ys) ++ zs ≡ xs ++ (ys ++ zs)
append_assoc [] ys zs = refl
append_assoc (x ∷ xs) ys zs = ap (◌∷◌ x) (append_assoc xs ys zs)

join-put_back : (bs : List ℕ) (s : Stream) → join (put_back bs s) ≡ bs ++ join s
unfolding put_back
join-put_back [] s = refl
join-put_back (b ∷ bs) s = refl

AllFull-put_back : (bs : List ℕ) (s : Stream) → AllFull s → AllFull (put_back bs s)
unfolding put_back
AllFull-put_back [] s a = a
AllFull-put_back (b ∷ bs) s a = (omega arith, a)

-- A read takes bytes off the front, and at least one if there is one.
read-front : (n : ℕ) (s : Stream) → (read n s).0 ++ join (read n s).1 ≡ join s
unfolding read
read-front n [] = refl
read-front n (c ∷ s) =
    ap (λ r. take n c ++ r) (join-put_back (drop n c) s)
    ∙ sym (append_assoc (take n c) (drop n c) (join s))
    ∙ ap (λ r. r ++ join s) (take-append-drop n c)

AllFull-read : (n : ℕ) (s : Stream) → AllFull s → AllFull (read n s).1
unfolding read
AllFull-read n [] a = tt
AllFull-read n (c ∷ s) a = AllFull-put_back (drop n c) s a.1

length-read : (n : ℕ) (s : Stream) → length (read n s).0 ≤ n
unfolding read
length-read n [] = omega arith
length-read n (c ∷ s) = omega (arith, length-take n c)

read-some : (n : ℕ) (s : Stream) → AllFull s → 0 < n → 0 < length (join s) → 0 < length (read n s).0
unfolding read
read-some n [] a h k = absurd (omega (arith, k))
read-some n (c ∷ s) a h k = omega (arith, length-take n c, a.0, h)

-- Equal texts of equal front lengths have equal fronts and rests.
split-front :
    (xs ys zs ws : List ℕ)
    → length xs ≤ length zs
    → xs ++ ys ≡ zs ++ ws
    → (mid : List ℕ) × (zs ≡ xs ++ mid) × (ys ≡ mid ++ ws)
split-front [] ys zs ws h e = (zs, refl, e)
split-front (x ∷ xs) ys [] ws h e = absurd (omega (arith, h))
split-front (x ∷ xs) ys (z ∷ zs) ws h e =
    let (mid, e₁, e₂) = split-front xs ys zs ws (omega (arith, h)) (cc) in
    (mid, ap₂ ◌∷◌ (cc) e₁, e₂)

append_nil : {A : Type 0} (xs : List A) → xs ++ [] ≡ xs
append_nil [] = refl
append_nil (x ∷ xs) = ap (◌∷◌ x) (append_nil xs)

read_loop-step :
    (fuel : ℕ) (buf : List ℕ) (needed : ℕ) (s : Stream)
    → 0 < needed
    → 0 < length (read needed s).0
    → read_loop (suc fuel) buf needed s
      ≡ read_loop fuel
          (buf ++ (read needed s).0)
          (needed - length (read needed s).0)
          (read needed s).1
unfolding read_loop
read_loop-step fuel buf needed s h k =
    let some_needed : eqb needed 0 ≡ false = ground (arith, h) in
    let some_read : eqb (length (read needed s).0) 0 ≡ false = ground (arith, k) in
    rw (some_needed, some_read) refl

-- The loop reads what it needs, and leaves the rest.
pub read_loop-front :
    (fuel : ℕ) (buf payload rest : List ℕ) (s : Stream)
    → length payload ≤ fuel
    → AllFull s
    → join s ≡ payload ++ rest
    → (s' : Stream) × (read_loop fuel buf (length payload) s ≡ (some (buf ++ payload), s'))
      × (join s' ≡ rest)
      × AllFull s'
unfolding read_loop
read_loop-front zero buf [] rest s enough full e =
    (s, ap (λ b. (some b, s)) (sym (append_nil buf)), e, full)
read_loop-front zero buf (p ∷ ps) rest s enough full e = absurd (omega (arith, enough))
read_loop-front (suc fuel) buf [] rest s enough full e =
    (s, ap (λ b. (some b, s)) (sym (append_nil buf)), e, full)
read_loop-front (suc fuel) buf (p ∷ ps) rest s enough full e =
    let needed : ℕ = length (p ∷ ps) in
    let chunk : List ℕ = (read needed s).0 in
    let s₁ : Stream = (read needed s).1 in
    let some_there : 0 < length (join s) = subst (λ l. 0 < length l) (sym e) (omega arith) in
    let some_read : 0 < length chunk = read-some needed s full (omega arith) some_there in
    let (mid, is_front, is_rest) =
      split-front chunk (join s₁) (p ∷ ps) rest (length-read needed s) (read-front needed s ∙ e) in
    let len : length (p ∷ ps) ≡ length chunk + length mid =
      ap length is_front ∙ length-append chunk mid in
    let left : needed - length chunk ≡ length mid = omega (arith, len) in
    let (s₂, looped, joined, full₂) =
      read_loop-front fuel (buf ++ chunk) mid rest s₁ (omega (arith, len, some_read, enough))
        (AllFull-read needed s full) is_rest in
    (
      s₂,
      read_loop-step fuel buf needed s (omega arith) some_read
          ∙ ap (λ n. read_loop fuel (buf ++ chunk) n s₁) left
          ∙ looped
          ∙ ap (λ b. (some b, s₂)) (append_assoc buf chunk mid ∙ ap (λ r. buf ++ r) (sym is_front)),
      joined,
      full₂,
    )

-- `read_exact` returns the first n bytes of the stream, in whatever chunks they arrive, and leaves the
-- bytes after them.
pub read_exact-front :
    (payload rest : List ℕ) (s : Stream)
    → AllFull s
    → join s ≡ payload ++ rest
    → (s' : Stream) × (read_exact (length payload) s ≡ (some payload, s'))
      × (join s' ≡ rest)
      × AllFull s'
unfolding read_exact
read_exact-front payload rest s full e =
    read_loop-front (length payload) [] payload rest s (omega arith) full e
