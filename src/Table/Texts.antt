-- ===== src/Table/Texts.antt =====
-- The text heap of c/src/table.c: what `buf_append` stores is read back, and earlier texts stay.
use db.Prelude.{
  leb, ℕ, zero, suc, ◌+◌, ◌-◌, ◌≤◌, ◌≡◌, ◌⊎◌, inl, inr, refl, sym, ap, ◌∙◌, false, List, [], ◌∷◌,
  ◌++◌, take, drop, length, length-append, arith, Bool-cases, some, Option-cases, replicate,
}
use db.Prelude.Bits.{size_max}
use db.Arena.{Arena, arena_failed, arena_checked_add, checked_add_size, arena_grow}
use db.Arena.Blocks.{latch-failed}
use db.Table.{Table, StringRef}
use db.Table.Cells.{
  heap_slice, reserve_heap, append_bytes, buf_append, first_heap_capacity, heap_capacity,
}

-- A slice of what was written at `n`.
slice_new :
    (xs src ys : List ℕ) (n : ℕ)
    → n ≤ length xs
    → take (length src) (drop n (take n xs ++ (src ++ ys))) ≡ src
slice_new xs [] ys zero h = refl
slice_new xs (x ∷ src) ys zero h = ap (◌∷◌ x) (slice_new xs src ys zero (omega arith))
slice_new [] src ys (suc n) h = absurd (omega arith)
slice_new (x ∷ xs) src ys (suc n) h = slice_new xs src ys n (omega arith)

take-within :
    (l n : ℕ) (xs zs : List ℕ) → l ≤ n → n ≤ length xs → take l (take n xs ++ zs) ≡ take l xs
take-within zero n xs zs h k = refl
take-within (suc l) zero xs zs h k = absurd (omega arith)
take-within (suc l) (suc n) [] zs h k = absurd (omega arith)
take-within (suc l) (suc n) (x ∷ xs) zs h k =
    ap (◌∷◌ x) (take-within l n xs zs (omega arith) (omega arith))

-- A slice before `n`.
slice_old :
    (o l n : ℕ) (xs zs : List ℕ)
    → o + l ≤ n
    → n ≤ length xs
    → take l (drop o (take n xs ++ zs)) ≡ take l (drop o xs)
slice_old zero l n xs zs h k = take-within l n xs zs (omega arith) k
slice_old (suc o) l zero xs zs h k = absurd (omega arith)
slice_old (suc o) l (suc n) [] zs h k = absurd (omega arith)
slice_old (suc o) l (suc n) (x ∷ xs) zs h k = slice_old o l n xs zs (omega arith) (omega arith)

take_all : (xs : List ℕ) → take (length xs) xs ≡ xs
take_all [] = refl
take_all (x ∷ xs) = ap (◌∷◌ x) (take_all xs)

length-take : (n : ℕ) (xs : List ℕ) → n ≤ length xs → length (take n xs) ≡ n
length-take zero xs h = refl
length-take (suc n) [] h = absurd (omega arith)
length-take (suc n) (x ∷ xs) h = ap suc (length-take n xs (omega arith))

-- Longer data with the same first bytes have the same slices there.
slice_longer :
    (o l : ℕ) (xs zs : List ℕ) → o + l ≤ length xs → take l (drop o (xs ++ zs)) ≡ take l (drop o xs)
slice_longer o l xs zs h =
    ap (λ ys. take l (drop o (ys ++ zs))) (sym (take_all xs))
    ∙ slice_old o l (length xs) xs zs h (omega arith)

-- The references into the first `n` bytes read as before.
unfoldable pub SameTexts : ℕ → Table → Table → Type 0
SameTexts n t u =
    (ref : StringRef)
    → ref.offset + ref.len ≤ n
    → heap_slice u.heap_data ref ≡ heap_slice t.heap_data ref

-- The heap with more room: the same texts.
pub record Reserved (t u : Table) : Type 0 where
  pub longer : length t.heap_data ≤ length u.heap_data
  pub same : SameTexts (length t.heap_data) t u
  pub heap_len : u.heap_len ≡ t.heap_len
  pub columns : u.columns ≡ t.columns

pub reserve_heap-Reserved :
    (t : Table) (a : Arena) (needed : ℕ) → Reserved t (reserve_heap t a needed).1
unfolding reserve_heap SameTexts heap_slice
reserve_heap-Reserved t a needed =
    let first = first_heap_capacity a t.heap_cap in
    let grown = heap_capacity 64 first.1 first.0 needed in
    let kept : (b : Arena) → Reserved t (record t { heap = b }) =
      λ b. record { longer = omega arith; same = λ ref h. refl; heap_len = refl; columns = refl } in
    elim (Bool-cases (leb needed t.heap_cap)) [
      | inl roomy ↦ rw roomy (kept a)
      | inr full ↦ elim (Bool-cases (arena_grow grown.1 grown.0 1).0) [
        | inr refused ↦ rw (full, refused) (kept _)
        | inl granted ↦
            rw (full, granted)
              (record {
                longer =
                    omega (
                      arith,
                      length-append t.heap_data (replicate (grown.0 - length t.heap_data) 0),
                    );
                same = λ ref h. slice_longer ref.offset ref.len t.heap_data _ h;
                heap_len = refl;
                columns = refl;
              })
      ]
    ]

checked_add_size-some : (x y n : ℕ) → y ≤ size_max → checked_add_size x y ≡ some n → n ≡ x + y
unfolding checked_add_size
checked_add_size-some x y n h e = ground arith

-- A sum taken in an arena that has no failure afterwards is exact.
arena_checked_add-exact :
    (a : Arena) (x y : ℕ)
    → y ≤ size_max
    → arena_failed (arena_checked_add a x y).1 ≡ false
    → (arena_checked_add a x y).0 ≡ x + y
unfolding arena_checked_add
arena_checked_add-exact a x y h ok = elim (Option-cases (checked_add_size x y)) [
  | inl e ↦ cc (latch-failed a)
  | inr (n, e) ↦ rw (e, arena_checked_add) (checked_add_size-some x y n h e)
]

-- The text is stored at the end of the heap, and the texts before it are as they were.
pub record Stored (t u : Table) (offset : ℕ) (src : List ℕ) : Type 0 where
  pub at_end : offset ≡ t.heap_len
  pub stored : heap_slice u.heap_data (record { offset = offset; len = length src }) ≡ src
  pub same : SameTexts t.heap_len t u
  pub heap_len : u.heap_len ≡ t.heap_len + length src
  pub room : u.heap_len ≤ length u.heap_data
  pub columns : u.columns ≡ t.columns

-- The heap could not grow.
pub record NotStored (t u : Table) (offset : ℕ) : Type 0 where
  pub failed : offset ≡ size_max
  pub same : SameTexts t.heap_len t u
  pub heap_len : u.heap_len ≡ t.heap_len
  pub room : u.heap_len ≤ length u.heap_data
  pub columns : u.columns ≡ t.columns

append_bytes-Stored :
    (t u : Table) (needed : ℕ) (src : List ℕ)
    → t.heap_len ≤ length t.heap_data
    → Reserved t u
    → needed ≡ t.heap_len + length src
    → Stored t (append_bytes u needed src).1 (append_bytes u needed src).0 src
unfolding append_bytes heap_slice SameTexts
append_bytes-Stored t u needed src h r e =
    let longer = r.longer in
    let now = r.heap_len in
    let tail = drop (u.heap_len + length src) u.heap_data in
    record {
      at_end = now;
      stored = slice_new u.heap_data src tail u.heap_len (omega arith);
      same = λ ref k.
          slice_old ref.offset ref.len u.heap_len u.heap_data (src ++ tail) (omega arith)
            (omega arith)
          ∙ r.same ref (omega arith);
      heap_len = e;
      room = omega (
        arith,
        length-append (take u.heap_len u.heap_data) (src ++ tail),
        length-append src tail,
        length-take u.heap_len u.heap_data (omega arith),
      );
      columns = r.columns;
    }

Reserved-NotStored :
    (t u : Table) → t.heap_len ≤ length t.heap_data → Reserved t u → NotStored t u size_max
unfolding SameTexts
Reserved-NotStored t u h r =
    let longer = r.longer in
    let now = r.heap_len in
    record {
      failed = refl;
      same = λ ref k. r.same ref (omega arith);
      heap_len = now;
      room = omega arith;
      columns = r.columns;
    }

-- `buf_append` on the text heap of a table, for a size of 64 bits and a heap whose length is
-- within its data: the bytes stand at the offset it answers, every text before them reads as
-- before, and the length grows by theirs; or it answers SIZE_MAX, and every text reads as before.
pub buf_append-Stored :
    (t : Table) (src : List ℕ)
    → t.heap_len ≤ length t.heap_data
    → length src ≤ size_max
    → Stored t (buf_append t src).1 (buf_append t src).0 src
      ⊎ NotStored t (buf_append t src).1 (buf_append t src).0
unfolding buf_append SameTexts
buf_append-Stored t src h small =
    let sum = arena_checked_add t.heap t.heap_len (length src) in
    let r = reserve_heap-Reserved t sum.1 sum.0 in
    elim (Bool-cases (arena_failed sum.1)) [
      | inl failed ↦ rw failed (
          inr (record {
            failed = refl;
            same = λ ref k. refl;
            heap_len = refl;
            room = h;
            columns = refl;
          }))
      | inr ok ↦ elim (Bool-cases (reserve_heap t sum.1 sum.0).0) [
        | inr refused ↦ rw (ok, refused) (inr (Reserved-NotStored t _ h r))
        | inl granted ↦
            rw (ok, granted)
              (inl (
                append_bytes-Stored t _ sum.0 src h r
                  (arena_checked_add-exact t.heap t.heap_len (length src) small ok)))
      ]
    ]
