-- ===== src/Tests/Files.antt =====
-- src/drivers/fat.c on a small volume.
use hal_os.Base.{
  ℕ, zero, suc, ◌+◌, ◌-◌, ◌*◌, ◌%◌, ◌≤◌, ◌<◌, ◌==◌, leb, Bool, true, ◌&&◌, if◌then◌else◌,
}
use hal_os.Base.{◌∙◌, ap, inl, inr, Bool-cases, u8}
use hal_os.Base.{
  ◌≡◌, ◌≢◌, refl, arith, Option, some, List, [], ◌∷◌, ◌++◌, length, take, drop, replicate,
  length-replicate, length-append,
}
use hal_os.Fat.{Volume, File, complete, read_file, cluster_to_sector}
use hal_os.Str.{Memory}
use hal_os.Fat.Names.{Names, lfn_char, sequence, name_of}
use hal_os.Fat.Names.Long.{IsPart, IsRoom, take_all, name_of-turned}
use hal_os.Fat.Chain.{content, cluster_bytes, length-sectors}
use hal_os.Fat.Content.{read_file-content}
use hal_os.Fat.Ends.{IsEnded, read_file-IsEnded}

-- each sector is filled with one byte
abbrev image : ℕ → List ℕ
image s = replicate 512 (s % 256)

abbrev disk : ℕ → Option (List ℕ)
disk s = some (image s)

-- two sectors to a cluster; cluster 5 follows cluster 2
abbrev volume : Volume
volume = record {
  sectors_per_cluster = 2;
  root_cluster = 2;
  data_start_sector = 10;
  cluster_size = 1024;
  fat = λ c. if c == 2 then 5 else 0x0FFFFFFF;
}

abbrev file : File
file = record { attrib = 0x20; cluster = 2; size = 1500 }

abbrev clusters : List ℕ
clusters = 2 ∷ 5 ∷ []

filled : (s : ℕ) → length (image s) ≡ 512
filled s = length-replicate 512 (s % 256)

long_enough : 600 + 700 ≤ length (content image volume clusters)
long_enough = omega (
  arith,
  length-append (cluster_bytes image volume 2) (cluster_bytes image volume 5 ++ []),
  length-append (cluster_bytes image volume 5) [],
  length-sectors image filled 2 (cluster_to_sector volume 2) 0,
  length-sectors image filled 2 (cluster_to_sector volume 5) 0,
)

-- from the second sector of the first cluster into the second cluster
read_file-content_example :
    read_file disk volume file 600 700
    ≡ (take 700 (drop 600 (content image volume clusters)), complete)
read_file-content_example =
    read_file-content disk image (λ _. refl) filled volume file 600 700 clusters refl (omega arith)
      (refl, omega arith, (refl, omega arith, refl)) (omega arith) (omega arith) (omega arith)
      (omega arith) long_enough

read_file-IsEnded_example : IsEnded (read_file disk volume file 600 900).1
read_file-IsEnded_example =
    read_file-IsEnded disk volume file 600 900 refl (omega arith) (omega arith) (omega arith)

-- the 13 characters `ch` of the part with the number `seq`
abbrev piece : ℕ → ℕ → List ℕ
piece seq ch =
    seq ∷ ch ∷ 0 ∷ ch ∷ 0 ∷ ch ∷ 0 ∷ ch ∷ 0 ∷ ch ∷ 0 ∷ 0x0F ∷ 0 ∷ 0 ∷ ch ∷ 0 ∷ ch ∷ 0 ∷ ch ∷ 0 ∷ ch
    ∷ 0 ∷ ch ∷ 0 ∷ ch ∷ 0 ∷ 0 ∷ 0 ∷ ch ∷ 0 ∷ ch ∷ 0 ∷ []

abbrev pieces : ℕ → List ℕ
pieces q = piece (suc q) (97 + q)

abbrev all_below : ℕ → (ℕ → Bool) → Bool
all_below zero test = true
all_below (suc n) test = test n && all_below n test

all_below-test :
    (n : ℕ) (test : ℕ → Bool) → all_below n test ≡ true → (k : ℕ) → k < n → test k ≡ true
all_below-test zero test h k lt = absurd (omega arith)
all_below-test (suc n) test h k lt = elim (Bool-cases (k == n)) [
  | inl last ↦ let e : k ≡ n = ground (arith, last) in ap test e ∙ ground (arith, h)
  | inr before ↦ all_below-test n test (ground (arith, h)) k (ground (arith, before))
]

-- a letter, and no end of a name
abbrev is_letter : List ℕ → ℕ → Bool
is_letter entry k = leb 97 (lfn_char entry k) && leb (lfn_char entry k) 122

letter-whole : (c : ℕ) → (leb 97 c && leb c 122) ≡ true → (c ≢ 0xFFFF) × (u8 c ≢ 0)
letter-whole c h = (λ z. ground (arith, h, z), λ z. ground (arith, h, z))

letters-IsPart :
    (q : ℕ) (entry : List ℕ)
    → sequence entry ≡ suc q
    → all_below 13 (is_letter entry) ≡ true
    → IsPart q entry
letters-IsPart q entry e h =
    let letter : (k : ℕ) → k < 13 → is_letter entry k ≡ true =
      all_below-test 13 (is_letter entry) h in
    record {
      numbered = e;
      whole = λ k lt. (letter-whole (lfn_char entry k) (letter k lt)).0;
      signs = λ k lt. (letter-whole (lfn_char entry k) (letter k lt)).1;
    }

pieces-IsPart : (q : ℕ) → q < 2 → IsPart q (pieces q)
pieces-IsPart zero lt = letters-IsPart 0 (pieces 0) refl refl
pieces-IsPart (suc zero) lt = letters-IsPart 1 (pieces 1) refl refl
pieces-IsPart (suc (suc q)) lt = absurd (omega arith)

abbrev start : Names
start = record {
  mem = λ i. 0;
  lfn_length = 0;
  list = record { cluster = 2; entry = 0; sector_buffer = []; buffered_sector = 0 };
}

apart : IsRoom 0 100 200 2
apart = record { few = omega arith; temp_apart = inl (omega arith); name_apart = inl (omega arith) }

-- Part 1 has the letter a and part 2 the letter b; the name starts with b.
name_of-turned_example :
    (after : Memory) × (name_of 0 100 200 300 (piece 0 0) (take_all 200 2 pieces start)
      ≡ some after)
    × ((j k : ℕ) → j < 2 → k < 13 → after (0 + (j * 13 + k)) ≡ u8 (lfn_char (pieces (2 - j - 1)) k))
name_of-turned_example =
    name_of-turned 0 100 200 300 2 pieces (piece 0 0) start (omega arith) apart pieces-IsPart refl
