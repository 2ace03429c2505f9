-- ===== src/Bayan/Computer/Blocks.antt =====
-- The blocks of a file, as the crawler reads them one after another, are the parts of its bytes.
use mathlib.Core.List.{reverse_aux}
use mathlib.Core.Path.{subst}
use native.Mathlib.Nat.{add-mul}
use cpp.Prelude.{
  ℕ, zero, suc, ◌+◌, ◌-◌, ◌*◌, ◌≤◌, ◌<◌, ◌≡◌, ◌≢◌, ◌⊎◌, inl, inr, refl, ap, sym, ◌∙◌, Bool-cases,
  some, List, [], ◌∷◌, arith, ltb, if◌then◌else◌, length, length-drop, take, drop,
}
use cpp.Prelude.Result.{ok}
use cpp.Bayan.Crawler.Step.{next_of}
use cpp.Bayan.Crawler.Handle.{IsComputer}
use cpp.Bayan.Computer.{checksum_of, compute_block, compute}

-- The checksums of the parts of a list of bytes, the last one filled up with zeros. There are at most
-- as many parts as bytes, which is the fuel.
unfoldable pub block_checksums : ℕ → (List ℕ → ℕ) → ℕ → List ℕ → List ℕ
block_checksums size checksum zero bytes = []
block_checksums size checksum (suc fuel) bytes =
    let rest = block_checksums size checksum fuel (drop size bytes) in
    if ltb size (length bytes)
    then checksum_of checksum (take size bytes) 0 ∷ rest
    else checksum_of checksum bytes (size - length bytes) ∷ []

abbrev pub checksums_of : ℕ → (List ℕ → ℕ) → List ℕ → List ℕ
checksums_of size checksum bytes = block_checksums size checksum (length bytes) bytes

drop-nil : (n : ℕ) → drop {A = ℕ} n [] ≡ []
drop-nil zero = refl
drop-nil (suc n) = refl

drop_twice : (n m : ℕ) (xs : List ℕ) → drop m (drop n xs) ≡ drop (n + m) xs
drop_twice zero m xs = ap (λ k. drop k xs) (omega arith)
drop_twice (suc n) m [] = drop-nil m ∙ sym (drop-nil (suc n + m))
drop_twice (suc n) m (x ∷ xs) =
    let e : suc n + m ≡ suc (n + m) = omega arith in rw (e, drop_twice n m xs)

drop-reverse_aux : (p s : List ℕ) → drop (length p) (reverse_aux p s) ≡ s
drop-reverse_aux [] s = refl
drop-reverse_aux (x ∷ p) s =
    let e : suc (length p) ≡ length p + 1 = omega arith in
    ap (λ k. drop k (reverse_aux p (x ∷ s))) e
    ∙ sym (drop_twice (length p) 1 (reverse_aux p (x ∷ s)))
    ∙ ap (drop 1) (drop-reverse_aux p (x ∷ s))

next_of-some : (p left : List ℕ) → left ≢ [] → next_of p left ≡ some (suc (length p))
next_of-some p [] h = absurd (h refl)
next_of-some p (z ∷ left) h = refl

module _ (size : ℕ) (checksum : List ℕ → ℕ) (positive : 0 < size) where
  -- What is read at a shift: a block of the full size, with more after it, or the last one.
  abbrev IsBlock : List ℕ → ℕ → ℕ → List ℕ → Type 0
  IsBlock bytes shift y left =
      (shift < length bytes)
      × (((shift + size < length bytes)
            × (y ≡ checksum_of checksum (take size (drop shift bytes)) 0)
            × (left ≢ []))
          ⊎ ((length bytes ≤ shift + size)
              × (y ≡ checksum_of checksum (drop shift bytes) (shift + size - length bytes))
              × (left ≡ [])))

  some_left : (fuel : ℕ) (bytes : List ℕ) → 0 < fuel → block_checksums size checksum fuel bytes ≢ []
  unfolding block_checksums
  some_left zero bytes h = absurd (omega (arith, h))
  some_left (suc fuel) bytes h = λ e. ground (arith, e)

  IsBlock-first :
      (fuel : ℕ) (bytes : List ℕ) (y : ℕ) (left : List ℕ)
      → length bytes ≤ suc fuel
      → 0 < length bytes
      → block_checksums size checksum (suc fuel) bytes ≡ y ∷ left
      → IsBlock bytes 0 y left
  unfolding block_checksums
  IsBlock-first fuel bytes y left l z h = elim (Bool-cases (ltb size (length bytes))) [
    | inl e ↦ (
      z,
      inl (
        ground (arith, e),
        ground (arith, e, h),
        λ q. some_left fuel (drop size bytes) (ground (arith, e)) (ground (arith, e, h, q)),
      ),
    )
    | inr e ↦ (z, inr (ground (arith, e), ground (arith, e, h), ground (arith, e, h)))
  ]

  shifted :
      (bytes : List ℕ) (n y : ℕ) (left : List ℕ)
      → size < length bytes
      → IsBlock (drop size bytes) (n * size) y left
      → IsBlock bytes (suc n * size) y left
  shifted bytes n y left l (a, b) =
      let e : suc n * size ≡ size + n * size = omega (arith, add-mul n 1 size) in
      let d : drop (n * size) (drop size bytes) ≡ drop (suc n * size) bytes =
        drop_twice size (n * size) bytes ∙ ap (λ k. drop k bytes) (sym e) in
      let g = length-drop size bytes in
      (
        omega (arith, a, g, e),
        elim b [
          | inl (u, v, w) ↦
              inl
                (omega (arith, u, g, e), v ∙ ap (λ bs. checksum_of checksum (take size bs) 0) d, w)
          | inr (u, v, w) ↦
              let k : n * size + size - length (drop size bytes)
                  ≡ suc n * size + size - length bytes =
                omega (arith, g, e, l) in
              inr (
                omega (arith, u, g, e, l),
                v
                    ∙ ap
                        (λ bs. checksum_of checksum bs (n * size + size - length (drop size bytes)))
                        d
                    ∙ ap (λ j. checksum_of checksum (drop (suc n * size) bytes) j) k,
                w,
              )
        ],
      )

  IsBlock-at :
      (n fuel : ℕ) (bytes : List ℕ) (y : ℕ) (left : List ℕ)
      → length bytes ≤ fuel
      → 0 < length bytes
      → drop n (block_checksums size checksum fuel bytes) ≡ y ∷ left
      → IsBlock bytes (n * size) y left
  unfolding block_checksums
  IsBlock-at n zero bytes y left l z h = absurd (omega (arith, l, z))
  IsBlock-at zero (suc fuel) bytes y left l z h =
      let e : 0 ≡ 0 * size = omega arith in
      subst (λ k. IsBlock bytes k y left) e (IsBlock-first fuel bytes y left l z h)
  IsBlock-at (suc n) (suc fuel) bytes y left l z h = elim (Bool-cases (ltb size (length bytes))) [
    | inl e ↦
        let m : size < length bytes = ground (arith, e) in
        shifted bytes n y left m (
          IsBlock-at n fuel (drop size bytes) y left
            (omega (arith, l, length-drop size bytes, positive))
            (omega (arith, m, length-drop size bytes)) (ground (arith, e, h)))
    | inr e ↦ absurd (ground (arith, e, h, drop-nil n))
  ]

  block-computed :
      (bytes p : List ℕ) (y : ℕ) (left : List ℕ)
      → IsBlock bytes (length p * size) y left
      → compute_block size checksum bytes (length p) ≡ ok (y, next_of p left)
  unfolding compute_block
  block-computed bytes p y left (l, inl (a, b, c)) = ground (arith, l, a, b, next_of-some p left c)
  block-computed bytes p y left (l, inr (a, b, c)) = ground (arith, l, a, b, c)

  none_left : (bytes : List ℕ) → length bytes ≡ 0 → checksums_of size checksum bytes ≡ []
  unfolding block_checksums
  none_left bytes e = ground (arith, e)

  pub not_nil : (bytes : List ℕ) → 0 < length bytes → checksums_of size checksum bytes ≢ []
  not_nil bytes h = some_left (length bytes) bytes h

  not_empty :
      (n : ℕ) (bytes : List ℕ) (y : ℕ) (left : List ℕ)
      → drop n (checksums_of size checksum bytes) ≡ y ∷ left
      → 0 < length bytes
  not_empty n [] y left h = absurd (ground (arith, h, none_left [] refl, drop-nil n))
  not_empty n (b ∷ bytes) y left h = omega arith

  -- `Compute` reads the blocks of each file in their order, and says after the last one that it is so.
  pub compute-IsComputer :
      (contents : ℕ → List ℕ)
      → IsComputer (λ f. checksums_of size checksum (contents f)) (compute size checksum contents)
  unfolding compute
  compute-IsComputer contents f y p left h =
      let d : drop (length p) (checksums_of size checksum (contents f)) ≡ y ∷ left =
        sym (ap (drop (length p)) h) ∙ drop-reverse_aux p (y ∷ left) in
      block-computed (contents f) p y left (
        IsBlock-at (length p) (length (contents f)) (contents f) y left (omega arith)
          (not_empty (length p) (contents f) y left d) d)
