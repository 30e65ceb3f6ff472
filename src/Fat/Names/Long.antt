-- ===== src/Fat/Names/Long.antt =====
-- The long name that src/drivers/fat.c makes of the entries that hold its parts.
use hal_os.Base.{
  ℕ, zero, suc, ◌+◌, ◌-◌, ◌*◌, ◌/◌, ◌%◌, ◌≤◌, ◌<◌, ◌==◌, ltb, true, false, if◌then◌else◌,
}
use hal_os.Base.{
  update, update_self, update_ne, ◌≡◌, ◌≢◌, inl, inr, refl, arith, ◌∙◌, ap, sym, u8, List, some,
}
use native.Mathlib.Decide.{ℕ_discrete}
use hal_os.Str.{Memory, strcpy}
use hal_os.Str.Memory.{IsWritten}
use hal_os.Str.Text.{IsText}
use hal_os.Str.Copy.{Disjoint}
use hal_os.Str.Join.{strcpy-Copies}
use hal_os.Fat.Names.{
  Names, lfn_char, sequence, put_chars, parse_lfn_entry, join_parts, long_name, take_lfn, name_of,
}
use hal_os.Fat.Names.Order.{IsTurned, join_parts-IsTurned}

-- a name of whole parts in `lfn_buffer`, and room for it in the two other places
pub record IsRoom (out_name temp lfn_buffer parts : ℕ) : Type 0 where
  pub few : parts ≤ 31
  pub temp_apart : Disjoint temp (parts * 13) lfn_buffer (parts * 13)
  pub name_apart : Disjoint out_name (parts * 13 + 1) temp (parts * 13 + 1)

long_name-turned :
    (out_name temp lfn_buffer parts : ℕ) (mem : Memory)
    → IsRoom out_name temp lfn_buffer parts
    → ((k : ℕ) → k < parts * 13 → mem (lfn_buffer + k) ≢ 0)
    → (after : Memory) × (long_name parts out_name temp lfn_buffer mem ≡ some after)
      × ((j k : ℕ)
          → j < parts
          → k < 13
          → after (out_name + (j * 13 + k)) ≡ mem (lfn_buffer + ((parts - j - 1) * 13 + k)))
unfolding long_name
long_name-turned out_name temp lfn_buffer parts mem r body = (
  c.0,
  c.1,
  λ j k lt lt'.
      c.2.inside (j * 13 + k) (omega arith)
      ∙ update_ne joined (temp + parts * 13) (temp + (j * 13 + k)) 0 (omega arith)
      ∙ w.inside j k (omega arith) lt lt',
)
  where
    joined : Memory
    joined = join_parts parts 0 parts temp lfn_buffer mem

    w : IsTurned temp lfn_buffer parts 0 mem joined
    w = join_parts-IsTurned parts 0 parts temp lfn_buffer mem (omega arith) r.temp_apart body

    ended : Memory
    ended = update joined (temp + parts * 13) 0

    text : IsText ended temp (parts * 13)
    text = record {
      body = λ i lt z. body ((parts - i / 13 - 1) * 13 + i % 13) (omega arith) (
          sym (w.inside (i / 13) (i % 13) (omega arith) (omega arith) (omega arith))
          ∙ ap joined (omega arith)
          ∙ sym (update_ne joined (temp + parts * 13) (temp + i) 0 (omega arith))
          ∙ z);
      last = update_self joined (temp + parts * 13) 0;
    }

    c :
        (after : Memory) × (strcpy 404 out_name temp ended ≡ some after)
        × IsWritten out_name (suc (parts * 13)) (λ i. ended (temp + i)) ended after
    c = strcpy-Copies 404 (parts * 13) out_name temp ended text r.name_apart (omega (arith, r.few))

-- the part of an entry that has all of its 13 characters
put_chars-IsWritten :
    (n i : ℕ) (entry : List ℕ) (dest : ℕ) (mem : Memory)
    → ((k : ℕ) → i ≤ k → k < i + n → lfn_char entry k ≢ 0xFFFF)
    → IsWritten (dest + i) n (λ k. u8 (lfn_char entry (i + k))) mem (put_chars n i entry dest mem)
unfolding put_chars
put_chars-IsWritten zero i entry dest mem h = record {
  inside = λ k lt. absurd (omega arith);
  outside = λ a o. refl;
}
put_chars-IsWritten (suc n) i entry dest mem h =
    let more : (lfn_char entry i == 0xFFFF) ≡ false =
      ground (arith, h i (omega arith) (omega arith)) in
    let c = u8 (lfn_char entry i) in
    let w =
      put_chars-IsWritten n (i + 1) entry dest (update mem (dest + i) c)
        (λ k lo hi. h k (omega arith) (omega arith)) in
    let same : (a b : ℕ) → a ≡ b → u8 (lfn_char entry a) ≡ u8 (lfn_char entry b) =
      λ a b e. ap (λ j. u8 (lfn_char entry j)) e in
    let rest = put_chars n (i + 1) entry dest (update mem (dest + i) c) in
    rw (put_chars, more)
      (record {
        inside = λ k lt. elim (ℕ_discrete k 0) [
          | yes first ↦
              ap rest (omega arith)
              ∙ w.outside (dest + i) (inl (omega arith))
              ∙ update_self mem (dest + i) c
              ∙ same i (i + k) (omega arith)
          | no later ↦
              ap rest (omega arith)
              ∙ w.inside (k - 1) (omega arith)
              ∙ same (i + 1 + (k - 1)) (i + k) (omega arith)
        ];
        outside = λ a o.
            w.outside a (ground (arith, o)) ∙ update_ne mem (dest + i) a c (ground (arith, o));
      })

-- an entry with 13 characters, the part `q` of a name from 0 on
pub record IsPart (q : ℕ) (entry : List ℕ) : Type 0 where
  pub numbered : sequence entry ≡ suc q
  pub whole : (k : ℕ) → k < 13 → lfn_char entry k ≢ 0xFFFF
  pub signs : (k : ℕ) → k < 13 → u8 (lfn_char entry k) ≢ 0

-- the entries of a name in the order of a directory, the last part first
abbrev pub take_all : ℕ → ℕ → (ℕ → List ℕ) → Names → Names
take_all lfn_buffer zero entries s = s
take_all lfn_buffer (suc n) entries s =
    take_all lfn_buffer n entries (take_lfn lfn_buffer (entries n) s)

record Takes (lfn_buffer n : ℕ) (entries : ℕ → List ℕ) (before after : Names) : Type 0 where
  longest : after.lfn_length ≡ (if ltb before.lfn_length n then n else before.lfn_length)
  inside :
      (q k : ℕ)
      → q < n
      → k < 13
      → after.mem (lfn_buffer + (q * 13 + k)) ≡ u8 (lfn_char (entries q) k)
  behind : (a : ℕ) → lfn_buffer + n * 13 ≤ a → after.mem a ≡ before.mem a

take_lfn-fields :
    (lfn_buffer q : ℕ) (entry : List ℕ) (s : Names)
    → IsPart q entry
    → ((take_lfn lfn_buffer entry s).mem ≡ put_chars 13 0 entry (lfn_buffer + q * 13) s.mem)
      × ((take_lfn lfn_buffer entry s).lfn_length
          ≡ (if ltb s.lfn_length (suc q) then suc q else s.lfn_length))
unfolding take_lfn parse_lfn_entry
take_lfn-fields lfn_buffer q entry s p =
    let some_part : (sequence entry == 0) ≡ false = ground (arith, p.numbered) in
    rw (take_lfn, some_part, p.numbered)
      (ap (λ n. put_chars 13 0 entry (lfn_buffer + n * 13) s.mem) (omega arith), refl)

zero_add : (k : ℕ) → 0 + k ≡ k
zero_add k = omega arith

take_all-Takes :
    (lfn_buffer n : ℕ) (entries : ℕ → List ℕ) (s : Names)
    → ((q : ℕ) → q < n → IsPart q (entries q))
    → Takes lfn_buffer n entries s (take_all lfn_buffer n entries s)
take_all-Takes lfn_buffer zero entries s p = record {
  longest = ground arith;
  inside = λ q k lt lt'. absurd (omega arith);
  behind = λ a h. refl;
}
take_all-Takes lfn_buffer (suc n) entries s p =
    let next = take_lfn lfn_buffer (entries n) s in
    let part = p n (omega arith) in
    let (mem, length) = take_lfn-fields lfn_buffer n (entries n) s part in
    let w =
      put_chars-IsWritten 13 0 (entries n) (lfn_buffer + n * 13) s.mem
        (λ k lo hi. part.whole k (omega arith)) in
    let t = take_all-Takes lfn_buffer n entries next (λ q lt. p q (omega arith)) in
    let after = (take_all lfn_buffer n entries next).mem in
    record {
      longest = ground (arith, t.longest, length);
      inside = λ q k lt lt'. elim (ℕ_discrete q n) [
        | yes last ↦
            t.behind (lfn_buffer + (q * 13 + k)) (omega (arith, last))
            ∙ ap (λ m. m (lfn_buffer + (q * 13 + k))) mem
            ∙ ap (put_chars 13 0 (entries n) (lfn_buffer + n * 13) s.mem) (omega (arith, last))
            ∙ w.inside k lt'
            ∙ ap (λ j. u8 (lfn_char (entries n) j)) (zero_add k)
            ∙ ap (λ e. u8 (lfn_char e k)) (ap entries (sym last))
        | no before ↦ t.inside q k (omega arith) lt'
      ];
      behind =
          λ a h. t.behind a (omega arith) ∙ ap (λ m. m a) mem ∙ w.outside a (inr (omega arith));
    }

name_of-long :
    (out_name temp lfn_buffer at parts : ℕ) (entry : List ℕ) (s : Names)
    → s.lfn_length ≡ parts
    → 0 < parts
    → name_of out_name temp lfn_buffer at entry s ≡ long_name parts out_name temp lfn_buffer s.mem
unfolding name_of
name_of-long out_name temp lfn_buffer at parts entry s e h =
    let long : ltb 0 s.lfn_length ≡ true = ground (arith, e) in rw (name_of, long, e) refl

-- A long name of whole parts comes out with its parts in the wrong order: behind the entries of
-- parts `parts` down to 1, of 13 characters each, in a directory in which no other part stands in
-- front of them, the name of the entry that follows has in its place `j` from 0 on the characters of
-- the part `parts - j`. The buffers have room for the name and do not overlap.
pub name_of-turned :
    (out_name temp lfn_buffer at parts : ℕ) (entries : ℕ → List ℕ) (entry : List ℕ) (s : Names)
    → 0 < parts
    → IsRoom out_name temp lfn_buffer parts
    → ((q : ℕ) → q < parts → IsPart q (entries q))
    → s.lfn_length ≡ 0
    → (after : Memory) × (name_of out_name temp lfn_buffer at entry
          (take_all lfn_buffer parts entries s)
        ≡ some after)
      × ((j k : ℕ)
          → j < parts
          → k < 13
          → after (out_name + (j * 13 + k)) ≡ u8 (lfn_char (entries (parts - j - 1)) k))
name_of-turned out_name temp lfn_buffer at parts entries entry s some_parts r p e =
    let t = take_all-Takes lfn_buffer parts entries s p in
    let taken = take_all lfn_buffer parts entries s in
    let length : taken.lfn_length ≡ parts = ground (arith, t.longest, e) in
    let (after, yields, chars) =
      long_name-turned out_name temp lfn_buffer parts taken.mem r (λ k lt z.
        (p (k / 13) (omega arith)).signs (k % 13) (omega arith) (
          sym (t.inside (k / 13) (k % 13) (omega arith) (omega arith))
          ∙ ap taken.mem (omega arith)
          ∙ z)) in
    (
      after,
      name_of-long out_name temp lfn_buffer at parts entry taken length some_parts ∙ yields,
      λ j k lt lt'. chars j k lt lt' ∙ t.inside (parts - j - 1) k (omega arith) lt',
    )
