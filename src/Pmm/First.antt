-- ===== src/Pmm/First.antt =====
-- The search of `pmm_alloc_block` in src/mm/pmm.c: the bits of each byte, byte after byte.
use mathlib.Core.Path.{subst}
use native.Mathlib.Decide.{dec_lt}
use hal_os.Base.{ℕ, zero, suc, ◌+◌, ◌*◌, ◌/◌, ◌%◌, ◌≤◌, ◌<◌, ◌==◌, true, false, Option}
use hal_os.Base.{◌≡◌, refl, arith, leb, none, some, inl, inr, ==_iff, ◌∙◌, Bool-cases, Option-cases}
use hal_os.Bitmap.{ByteMap, is_used, test_bit}
use hal_os.Bitmap.Bits.{test_bit-full}
use hal_os.Pmm.{scan_bits, scan_bytes}

module _ (m : ByteMap) (max : ℕ) where
  -- `b` is the first block from `lo` on that is not in use.
  pub record IsFirstFree (lo hi b : ℕ) : Type 0 where
    pub lower : lo ≤ b
    pub upper : b < hi
    pub in_range : b < max
    pub is_free : is_used m b ≡ false
    pub first : (c : ℕ) → lo ≤ c → c < b → is_used m c ≡ true

  abbrev pub AllUsed : ℕ → ℕ → Type 0
  AllUsed lo hi = (c : ℕ) → lo ≤ c → c < hi → c < max → is_used m c ≡ true

  -- how a search of the blocks from `lo` up to `hi` ends
  abbrev pub Finds : ℕ → ℕ → Option ℕ → Type 0
  Finds lo hi none = AllUsed lo hi
  Finds lo hi (some b) = IsFirstFree lo hi b

  Finds-here : (lo hi : ℕ) → lo < hi → lo < max → is_used m lo ≡ false → Finds lo hi (some lo)
  Finds-here lo hi h k f = record {
    lower = omega arith;
    upper = h;
    in_range = k;
    is_free = f;
    first = λ c a b. absurd (omega arith);
  }

  -- used blocks in front of a search
  Finds-skip :
      (lo mid hi : ℕ) (o : Option ℕ) → lo ≤ mid → AllUsed lo mid → Finds mid hi o → Finds lo hi o
  Finds-skip lo mid hi none le u f =
      λ c a b k. elim (dec_lt c mid) [ yes p ↦ u c a p k | no p ↦ f c (omega arith) b k ]
  Finds-skip lo mid hi (some n) le u f = record {
    lower = ground (arith, f.lower);
    upper = f.upper;
    in_range = f.in_range;
    is_free = f.is_free;
    first = λ c a b. elim (dec_lt c mid) [
      | yes p ↦ u c a p (ground (arith, f.in_range, f.lower))
      | no p ↦ f.first c (omega arith) b
    ];
  }

  Finds-one : (b : ℕ) → is_used m b ≡ true → AllUsed b (b + 1)
  Finds-one b u c lo hi k = let e : b ≡ c = omega arith in subst (λ n. is_used m n ≡ true) e u

  is_used-at : (byte bit : ℕ) → bit < 8 → is_used m (byte * 8 + bit) ≡ test_bit (m byte) bit
  unfolding is_used
  is_used-at byte bit h =
      let e : (byte * 8 + bit) / 8 ≡ byte = omega arith in
      let f : (byte * 8 + bit) % 8 ≡ bit = omega arith in rw (e, f) refl

  scan_bits-Finds :
      (byte left bit : ℕ)
      → bit + left ≡ 8
      → Finds (byte * 8 + bit) (byte * 8 + 8) (scan_bits m max byte left bit)
  unfolding scan_bits
  scan_bits-Finds byte zero bit e = λ c lo hi k. absurd (omega arith)
  scan_bits-Finds byte (suc left) bit e = elim (Bool-cases (leb max (byte * 8 + bit))) [
    | inl out ↦ rw (out, scan_bits) (λ c lo hi k. ground arith)
    | inr inside ↦ elim (Bool-cases (test_bit (m byte) bit)) [
      | inl used ↦
          rw (inside, used, scan_bits)
            (Finds-skip _ (byte * 8 + bit + 1) _ _ (omega arith)
              (Finds-one _ (is_used-at byte bit (omega arith) ∙ used))
              (subst (λ n. Finds n (byte * 8 + 8) (scan_bits m max byte left (bit + 1)))
                (omega arith) (scan_bits-Finds byte left (bit + 1) (omega arith))))
      | inr free ↦
          rw (inside, free, scan_bits)
            (Finds-here _ _ (omega arith) (ground arith) (is_used-at byte bit (omega arith) ∙ free))
    ]
  ]

  full_byte : (byte : ℕ) → m byte ≡ 255 → AllUsed (byte * 8) (byte * 8 + 8)
  unfolding is_used
  full_byte byte e c lo hi k =
      let f : c / 8 ≡ byte = omega arith in rw (f, e) (test_bit-full (c % 8) (omega arith))

  Finds-more : (lo mid hi b : ℕ) → mid ≤ hi → Finds lo mid (some b) → Finds lo hi (some b)
  Finds-more lo mid hi b h f = record {
    lower = f.lower;
    upper = ground (arith, f.upper);
    in_range = f.in_range;
    is_free = f.is_free;
    first = f.first;
  }

  -- The search finds the first free block of the bytes it covers, and misses only where every
  -- block of them is in use.
  pub scan_bytes-Finds :
      (left byte hi : ℕ) → hi ≡ (byte + left) * 8 → Finds (byte * 8) hi (scan_bytes m max left byte)
  unfolding scan_bytes
  scan_bytes-Finds zero byte hi e = λ c lo h k. absurd (omega arith)
  scan_bytes-Finds (suc left) byte hi e =
      let rest : Finds (byte * 8 + 8) hi (scan_bytes m max left (byte + 1)) =
        subst (λ n. Finds n hi (scan_bytes m max left (byte + 1))) (omega arith)
          (scan_bytes-Finds left (byte + 1) hi (omega arith)) in
      let this_byte : Finds (byte * 8) (byte * 8 + 8) (scan_bits m max byte 8 0) =
        subst (λ n. Finds n (byte * 8 + 8) (scan_bits m max byte 8 0)) (omega arith)
          (scan_bits-Finds byte 8 0 (omega arith)) in
      elim (Bool-cases (m byte == 0xff)) [
        | inl full ↦
            rw (full, scan_bytes)
              (Finds-skip _ (byte * 8 + 8) _ _ (omega arith) (full_byte byte ((==_iff _ _).0 full))
                rest)
        | inr partial ↦ elim (Option-cases (scan_bits m max byte 8 0)) [
          | inl nothing ↦
              rw (partial, nothing, scan_bytes)
                (Finds-skip _ (byte * 8 + 8) _ _ (omega arith) (subst (Finds _ _) nothing this_byte)
                  rest)
          | inr (b, hit) ↦
              rw (partial, hit, scan_bytes)
                (Finds-more _ (byte * 8 + 8) _ _ (omega arith) (subst (Finds _ _) hit this_byte))
        ]
      ]
