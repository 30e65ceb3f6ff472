-- ===== src/Console/Input/Edited.antt =====
-- What a line of src/drivers/console.c holds when its keys are typed: an editor on lists, and the
-- loops of `getstr` and `getstr_bound` as steps of it.
use hal_os.Base.{
  ℕ, ◌-◌, ◌≤◌, ◌<◌, ◌==◌, ltb, leb, true, false, if◌then◌else◌, update, update_ne, update_self,
}
use hal_os.Base.{
  ◌≡◌, refl, arith, sym, ◌∙◌, ap, Bool-cases, inl, inr, List, [], ◌∷◌, length, Option, none, some,
}
use hal_os.Str.{Memory}
use hal_os.Console.{Console, flush, putchar, ungetchar}
use hal_os.Console.Cursor.{IsConsole, flush-IsConsole, putchar-IsConsole, ungetchar-IsConsole}
use hal_os.Console.Input.{Entry, printable, show, store, wrap, type_key, type_key_bound}

-- a key at the end of the characters that are typed, the last one of them first
abbrev pub edit_key : ℕ → List ℕ → List ℕ
edit_key key [] = if key == 8 then [] else if printable key then key ∷ [] else []
edit_key key (ch ∷ typed) =
    if key == 8 then typed else if printable key then key ∷ ch ∷ typed else ch ∷ typed

-- the line of some keys, and the keys behind it
abbrev pub line_from : List ℕ → ℕ → List ℕ → Option (List ℕ × List ℕ)
line_from [] last typed = if ltb (length typed) last then none else some (typed, [])
line_from (key ∷ keys) last typed = elim (ltb (length typed) last) [
  | false ↦ some (typed, key ∷ keys)
  | true ↦ elim (key == 10) [
    | true ↦ some (typed, keys)
    | false ↦ line_from keys last (edit_key key typed)
  ]
]

-- The characters, which are printable, stand at the start of the memory.
unfoldable pub Spells : Memory → List ℕ → Type 0
Spells text [] = Unit
Spells text (ch ∷ typed) = (text (length typed) ≡ ch) × (printable ch ≡ true) × Spells text typed

pub Spells-update :
    (typed : List ℕ) (text : Memory) (i v : ℕ)
    → length typed ≤ i
    → Spells text typed
    → Spells (update text i v) typed
unfolding Spells
Spells-update [] text i v h s = s
Spells-update (ch ∷ typed) text i v h s = (
  update_ne text i (length typed) v (omega arith) ∙ s.0,
  s.1,
  Spells-update typed text i v (omega arith) s.2,
)

pub Spells-write :
    (typed : List ℕ) (text : Memory) (i ch : ℕ)
    → i ≡ length typed
    → printable ch ≡ true
    → Spells text typed
    → Spells (update text i ch) (ch ∷ typed)
unfolding Spells
Spells-write typed text i ch e p s = (
  ap (update text i ch) (sym e) ∙ update_self text i ch,
  p,
  Spells-update typed text i ch (omega (arith, e)) s,
)

-- a round of the loop, `typed` being what is left of the keys
pub record IsEntry (buffer : Memory) (last : ℕ) (typed : List ℕ) (e : Entry) : Type 0 where
  pub index : e.index ≡ length typed
  pub text : Spells e.text typed
  pub rest : (i : ℕ) → last < i → e.text i ≡ buffer i
  pub console : IsConsole e.console

pub show-IsConsole : (key : ℕ) (c : Console) → IsConsole c → IsConsole (show key c)
show-IsConsole key c v = flush-IsConsole (putchar key c) (putchar-IsConsole key c v).0

module _ {buffer : Memory} {last : ℕ} where
  wrap-IsEntry :
      (typed : List ℕ) (e : Entry)
      → IsEntry buffer last typed e
      → IsEntry buffer last typed (wrap e)
  unfolding wrap
  wrap-IsEntry typed e v = elim (Bool-cases (leb e.console.cols e.console.cursor_x)) [
    | inr room ↦ rw room v
    | inl full ↦ rw full (record {
      index = v.index;
      text = v.text;
      rest = v.rest;
      console = show-IsConsole 10 e.console v.console;
    })
  ]

  store-IsEntry :
      (key : ℕ) (typed : List ℕ) (e : Entry)
      → IsEntry buffer last typed e
      → length typed < last
      → printable key ≡ true
      → IsEntry buffer last (key ∷ typed) (store key e)
  unfolding store Spells
  store-IsEntry key typed e v room sign = record {
    index = omega (arith, v.index);
    text = Spells-write typed e.text e.index key v.index sign v.text;
    rest = λ i h. update_ne e.text e.index i key (omega (arith, v.index)) ∙ v.rest i h;
    console = show-IsConsole key e.console v.console;
  }

  back-IsEntry :
      (ch : ℕ) (typed : List ℕ) (e : Entry) (text : Memory) (c : Console)
      → IsEntry buffer last (ch ∷ typed) e
      → Spells text typed
      → ((i : ℕ) → last < i → text i ≡ e.text i)
      → IsConsole c
      → IsEntry buffer last typed (record { index = e.index - 1; text = text; console = c })
  back-IsEntry ch typed e text c v s r w = record {
    index = omega (arith, v.index);
    text = s;
    rest = λ i h. r i h ∙ v.rest i h;
    console = w;
  }

  pub type_key-IsEntry :
      (key : ℕ) (typed : List ℕ) (e : Entry)
      → IsEntry buffer last typed e
      → length typed < last
      → IsEntry buffer last (edit_key key typed) (type_key key e)
  unfolding type_key Spells
  type_key-IsEntry key [] e v room = elim (Bool-cases (key == 8)) [
    | inl erase ↦
        let start : (e.index == 0) ≡ true = ground (arith, v.index) in
        rw (erase, start) (wrap-IsEntry [] e v)
    | inr other ↦ elim (Bool-cases (printable key)) [
      | inl sign ↦
          rw (other, sign)
            (wrap-IsEntry (key ∷ []) (store key e) (store-IsEntry key [] e v room sign))
      | inr none_such ↦ rw (other, none_such) (wrap-IsEntry [] e v)
    ]
  ]
  type_key-IsEntry key (ch ∷ typed) e v room = elim (Bool-cases (key == 8)) [
    | inl erase ↦
        let behind : (e.index == 0) ≡ false = ground (arith, v.index) in
        rw (erase, behind)
          (wrap-IsEntry typed _ (
            back-IsEntry ch typed e e.text (ungetchar e.console) v v.text.2 (λ i h. refl)
              (ungetchar-IsConsole e.console v.console)))
    | inr other ↦ elim (Bool-cases (printable key)) [
      | inl sign ↦
          rw (other, sign)
            (wrap-IsEntry (key ∷ ch ∷ typed) (store key e)
              (store-IsEntry key (ch ∷ typed) e v room sign))
      | inr none_such ↦ rw (other, none_such) (wrap-IsEntry (ch ∷ typed) e v)
    ]
  ]

  pub type_key_bound-IsEntry :
      (key : ℕ) (typed : List ℕ) (e : Entry)
      → IsEntry buffer last typed e
      → length typed < last
      → IsEntry buffer last (edit_key key typed) (type_key_bound key e)
  unfolding type_key_bound Spells
  type_key_bound-IsEntry key [] e v room =
      let start : ltb 0 e.index ≡ false = ground (arith, v.index) in
      elim (Bool-cases (key == 8)) [
        | inl erase ↦
            let sign : printable key ≡ false = ground (arith, erase) in
            rw (erase, start, sign) (wrap-IsEntry [] e v)
        | inr other ↦ elim (Bool-cases (printable key)) [
          | inl sign ↦
              rw (other, sign)
                (wrap-IsEntry (key ∷ []) (store key e) (store-IsEntry key [] e v room sign))
          | inr none_such ↦ rw (other, none_such) (wrap-IsEntry [] e v)
        ]
      ]
  type_key_bound-IsEntry key (ch ∷ typed) e v room =
      let behind : ltb 0 e.index ≡ true = ground (arith, v.index) in
      elim (Bool-cases (key == 8)) [
        | inl erase ↦
            rw (erase, behind)
              (back-IsEntry ch typed e (update e.text (e.index - 1) 0) (flush (ungetchar e.console))
                v (Spells-update typed e.text (e.index - 1) 0 (omega (arith, v.index)) v.text.2)
                (λ i h. update_ne e.text (e.index - 1) i 0 (omega (arith, v.index)))
                (flush-IsConsole (ungetchar e.console) (ungetchar-IsConsole e.console v.console)))
        | inr other ↦ elim (Bool-cases (printable key)) [
          | inl sign ↦
              rw (other, sign)
                (wrap-IsEntry (key ∷ ch ∷ typed) (store key e)
                  (store-IsEntry key (ch ∷ typed) e v room sign))
          | inr none_such ↦ rw (other, none_such) (wrap-IsEntry (ch ∷ typed) e v)
        ]
      ]
