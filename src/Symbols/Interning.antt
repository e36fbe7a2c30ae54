-- ===== src/Symbols/Interning.antt =====
-- The table of `InternSymbol`, internal/object/symbol.go.
use slug.Prelude.{
  ◌+◌, ◌^◌, ◌≤◌, ◌<◌, ◌≡◌, ◌↔◌, refl, sym, ap, ◌∙◌, true, false, none, some, List, [], ◌∷◌, length,
  Bool-cases, Option-cases, inl, inr, arith,
}
use mathlib.Core.Option.{none-ne-some, some-injective}
use slug.Prelude.Text.{Text, text_eq, text_eq_iff}
use slug.Symbols.{Symbol, SymbolTable, empty_table, find_symbol, added, intern_symbol}

-- Each symbol's number is its place in the table, counted from the first, and no name stands twice.
abbrev pub Numbered : List Symbol → Type 0
Numbered [] = Unit
Numbered (s ∷ symbols) =
    (s.id ≡ length symbols + 1) × (find_symbol s.name symbols ≡ none) × Numbered symbols

pub record IsNumbered (table : SymbolTable) : Type 0 where
  pub numbers : Numbered table.symbols
  pub counts : table.next_symbol ≡ length table.symbols

pub empty_table-IsNumbered : IsNumbered empty_table
empty_table-IsNumbered = record { numbers = tt; counts = refl }

-- InternSymbol keeps a table in which every symbol is numbered by its place and no name stands
-- twice, while it has fewer than 2 ^ 64 - 1 symbols.
pub intern_symbol-IsNumbered :
    (name : Text) (table : SymbolTable)
    → IsNumbered table
    → length table.symbols + 1 < 2 ^ 64
    → IsNumbered (intern_symbol name table).0
unfolding intern_symbol
intern_symbol-IsNumbered name table w room = elim (Option-cases (find_symbol name table.symbols)) [
  | inr (s, e) ↦ rw (intern_symbol, e) w
  | inl e ↦
      let next : table.next_symbol + 1 < 2 ^ 64 = omega (arith, room, w.counts) in
      rw (intern_symbol, e)
        (record {
          numbers = (omega (arith, next, w.counts), e, w.numbers);
          counts = omega (arith, next, w.counts);
        })
]

-- What a found symbol is: the one at the head, or one further on.
find_symbol-head :
    (name : Text) (t : Symbol) (symbols : List Symbol)
    → text_eq t.name name ≡ true
    → find_symbol name (t ∷ symbols) ≡ some t
unfolding find_symbol
find_symbol-head name t symbols y = rw y refl

find_symbol-tail :
    (name : Text) (t : Symbol) (symbols : List Symbol)
    → text_eq t.name name ≡ false
    → find_symbol name (t ∷ symbols) ≡ find_symbol name symbols
unfolding find_symbol
find_symbol-tail name t symbols n = rw n refl

find_symbol-none : (name : Text) (s : Symbol) → find_symbol name [] ≡ some s → ⊥
unfolding find_symbol
find_symbol-none name s e = none-ne-some s e

find_symbol-id :
    (name : Text) (symbols : List Symbol) (s : Symbol)
    → Numbered symbols
    → find_symbol name symbols ≡ some s
    → s.id ≤ length symbols
find_symbol-id name [] s w e = absurd (find_symbol-none name s e)
find_symbol-id name (t ∷ symbols) s (number, fresh, w) e = elim (Bool-cases (text_eq t.name name)) [
  | inl y ↦
      let same = some-injective t s (sym (find_symbol-head name t symbols y) ∙ e) in
      omega (arith, number, ap (λ (s : Symbol). s.id) same)
  | inr n ↦
      omega (arith, find_symbol-id name symbols s w (sym (find_symbol-tail name t symbols n) ∙ e))
]

find_symbol-same_name :
    (a b : Text) (symbols : List Symbol) (s t : Symbol)
    → Numbered symbols
    → find_symbol a symbols ≡ some s
    → find_symbol b symbols ≡ some t
    → s.id ≡ t.id
    → a ≡ b
find_symbol-same_name a b [] s t w e f same = absurd (find_symbol-none a s e)
find_symbol-same_name a b (r ∷ symbols) s t (number, fresh, w) e f same =
    let at_head = λ (name : Text) (y : text_eq r.name name ≡ true). (text_eq_iff r.name name).0 y in
    let id_of =
      λ (name : Text) (s : Symbol) (y : text_eq r.name name ≡ true)
          (e : find_symbol name (r ∷ symbols) ≡ some s).
        ap (λ (s : Symbol). s.id)
          (some-injective r s (sym (find_symbol-head name r symbols y) ∙ e)) in
    let id_in =
      λ (name : Text) (s : Symbol) (n : text_eq r.name name ≡ false)
          (e : find_symbol name (r ∷ symbols) ≡ some s).
        find_symbol-id name symbols s w (sym (find_symbol-tail name r symbols n) ∙ e) in
    elim (Bool-cases (text_eq r.name a)) [
      | inl y ↦ elim (Bool-cases (text_eq r.name b)) [
        | inl z ↦ sym (at_head a y) ∙ at_head b z
        | inr z ↦ absurd (omega (arith, number, id_of a s y e, id_in b t z f, same))
      ]
      | inr n ↦ elim (Bool-cases (text_eq r.name b)) [
        | inl z ↦ absurd (omega (arith, number, id_of b t z f, id_in a s n e, same))
        | inr m ↦
            find_symbol-same_name a b symbols s t w (sym (find_symbol-tail a r symbols n) ∙ e)
              (sym (find_symbol-tail b r symbols m) ∙ f) same
      ]
    ]

-- After a call the name is in the table, with the symbol that was returned.
find_symbol-intern_symbol :
    (name : Text) (table : SymbolTable)
    → find_symbol name (intern_symbol name table).0.symbols ≡ some (intern_symbol name table).1
unfolding intern_symbol
find_symbol-intern_symbol name table = elim (Option-cases (find_symbol name table.symbols)) [
  | inr (s, e) ↦ rw (intern_symbol, e) e
  | inl e ↦
      rw (intern_symbol, e)
        (find_symbol-head name (added name table).1 table.symbols ((text_eq_iff name name).1 refl))
]

-- A call for another name keeps what the table has.
intern_symbol-keeps :
    (name other : Text) (table : SymbolTable) (s : Symbol)
    → find_symbol name table.symbols ≡ some s
    → find_symbol name (intern_symbol other table).0.symbols ≡ some s
unfolding intern_symbol
intern_symbol-keeps name other table s e = elim (Option-cases (find_symbol other table.symbols)) [
  | inr (t, f) ↦ rw (intern_symbol, f) e
  | inl f ↦ elim (Bool-cases (text_eq other name)) [
    | inr n ↦
        rw (intern_symbol, f) (find_symbol-tail name (added other table).1 table.symbols n ∙ e)
    | inl y ↦ absurd (
        none-ne-some s (
          sym f
          ∙ ap (λ (t : Text). find_symbol t table.symbols) ((text_eq_iff other name).0 y)
          ∙ e))
  ]
]

abbrev pub intern_all : List Text → SymbolTable → SymbolTable
intern_all [] table = table
intern_all (name ∷ names) table = intern_all names (intern_symbol name table).0

intern_all-keeps :
    (name : Text) (others : List Text) (table : SymbolTable) (s : Symbol)
    → find_symbol name table.symbols ≡ some s
    → find_symbol name (intern_all others table).symbols ≡ some s
intern_all-keeps name [] table s e = e
intern_all-keeps name (other ∷ others) table s e =
    intern_all-keeps name others (intern_symbol other table).0 s
      (intern_symbol-keeps name other table s e)

-- After InternSymbol has been called for a name, and then for any other names, another call for
-- the name gives the same symbol and leaves the table as it is.
pub intern_symbol-again :
    (name : Text) (others : List Text) (table : SymbolTable)
    → intern_symbol name (intern_all others (intern_symbol name table).0)
      ≡ (intern_all others (intern_symbol name table).0, (intern_symbol name table).1)
unfolding intern_symbol
intern_symbol-again name others table =
    let (next, s) = intern_symbol name table in
    let found = intern_all-keeps name others next s (find_symbol-intern_symbol name table) in
    rw (intern_symbol, found) refl

intern_symbol-room :
    (name : Text) (table : SymbolTable)
    → length (intern_symbol name table).0.symbols ≤ length table.symbols + 1
unfolding intern_symbol
intern_symbol-room name table = elim (Option-cases (find_symbol name table.symbols)) [
  | inr (s, e) ↦ rw (intern_symbol, e) (omega arith)
  | inl e ↦ rw (intern_symbol, e) (omega arith)
]

-- In a table that numbers its symbols, with fewer than 2 ^ 64 - 2 of them, two calls of
-- InternSymbol give symbols with the same id exactly if the names are equal.
pub intern_symbol-id :
    (a b : Text) (table : SymbolTable)
    → IsNumbered table
    → length table.symbols + 2 < 2 ^ 64
    → ((intern_symbol a table).1.id ≡ (intern_symbol b (intern_symbol a table).0).1.id) ↔ (a ≡ b)
intern_symbol-id a b table w room =
    let (next, s) = intern_symbol a table in
    let (last, t) = intern_symbol b next in
    let found = find_symbol-intern_symbol a table in
    let numbered = intern_symbol-IsNumbered a table w (omega (arith, room)) in
    let numbered' =
      intern_symbol-IsNumbered b next numbered (omega (arith, room, intern_symbol-room a table)) in
    (
      λ same.
          find_symbol-same_name a b last.symbols s t numbered'.numbers
            (intern_symbol-keeps a b next s found) (find_symbol-intern_symbol b next) same,
      λ e.
          ap (λ (o : SymbolTable × Symbol). o.1.id) (sym (intern_symbol-again a [] table))
          ∙ ap (λ (n : Text). (intern_symbol n next).1.id) e,
    )
