-- ===== src/Lexer/Skip.antt =====
-- internal/lexer/lexer.go: white space and comments.
use slug.Prelude.{
  ℕ, zero, suc, ◌+◌, ◌-◌, Bool, true, false, not, ◌&&◌, ◌||◌, ◌==◌, if◌then◌else◌, Option, none,
  some, List, [], ◌∷◌, ◌++◌,
}
use slug.Prelude.Text.{Text, codes}
use slug.Lexer.{
  UnicodeTables, Lexer, ch, peek_char, peek_two_chars, read_char, rounds, first, has_any,
}

unfoldable pub skip_to_line_end : ℕ → Lexer → Lexer
unfolding read_char
skip_to_line_end zero l = l
skip_to_line_end (suc f) l =
    let rest = skip_to_line_end f (read_char l) in if ch l == b'\n' || ch l == 0 then l else rest

abbrev pub is_blank : ℕ → Bool
is_blank c = c == b' ' || c == b'\t' || c == b'\r'

-- `#`, or `//`
abbrev pub starts_line_comment : Lexer → Bool
starts_line_comment l = ch l == b'#' || ch l == b'/' && peek_char l == b'/'

unfoldable pub skip_whitespace : ℕ → Lexer → Lexer
unfolding read_char skip_to_line_end
skip_whitespace zero l = l
skip_whitespace (suc f) l =
    let after_blank = skip_whitespace f (read_char l) in
    let after_comment = skip_whitespace f (skip_to_line_end (rounds l) l) in
    if is_blank (ch l) then after_blank else (if starts_line_comment l then after_comment else l)

-- The loop of skipBlockComment; the flag is false where the comment does not end.
unfoldable pub skip_nested : ℕ → ℕ → Lexer → Lexer × Bool
unfolding read_char
skip_nested zero depth l = (l, false)
skip_nested (suc f) depth l =
    let twice = read_char (read_char l) in
    let opened = skip_nested f (depth + 1) twice in
    let closed = skip_nested f (depth - 1) twice in
    let next = skip_nested f depth (read_char l) in
    if ch l == 0
    then (l, false)
    else (if ch l == b'/' && peek_char l == b'*'
        then opened
        else (if ch l == b'*' && peek_char l == b'/'
            then (if depth - 1 == 0 then (twice, true) else closed)
            else next))

unfoldable pub skip_block_comment : Lexer → Lexer × Bool
unfolding skip_nested
skip_block_comment l =
    if not (ch l == b'/') || not (peek_char l == b'*')
    then (l, true)
    else skip_nested (rounds l) 1 (read_char (read_char l))

-- The blanks in front of a closing `*/`.
unfoldable pub doc_comment_closing_offset : Text → Option ℕ
doc_comment_closing_offset [] = none
doc_comment_closing_offset (c ∷ cs) =
    let rest = doc_comment_closing_offset cs in
    if c == b' ' || c == b'\t'
    then elim rest [ some n ↦ some (suc n) | none ↦ none ]
    else (if c == b'*' && first cs == b'/' then some 0 else none)

unfoldable pub read_chars : ℕ → Lexer → Lexer
unfolding read_char
read_chars zero l = l
read_chars (suc n) l = read_chars n (read_char l)

-- A text that was read, or an error's message.
pub data Scanned : Type 0 where
  scanned malformed : Text → Scanned

-- The loop of readDocComment, with the content read so far.
unfoldable pub read_doc_content : ℕ → Bool → Text → Lexer → Lexer × Option Text
unfolding doc_comment_closing_offset read_chars
read_doc_content zero at_line_start content l = (l, none)
read_doc_content (suc f) at_line_start content l =
    let next =
      read_doc_content f
        (if ch l == b'\n' then true else (if ch l == b'\r' then at_line_start else false))
        (content ++ (ch l ∷ [])) (read_char l) in
    let closing = if at_line_start then doc_comment_closing_offset l.ahead else none in
    if ch l == 0
    then (l, none)
    else elim closing [ some offset ↦ (read_chars (offset + 2) l, some content) | none ↦ next ]

-- strings.Split at newlines: a list that is not empty.
unfoldable pub split_lines : Text → List Text
split_lines [] = [] ∷ []
split_lines (c ∷ cs) =
    let lines = split_lines cs in
    if c == b'\n'
    then [] ∷ lines
    else elim lines [ [] ↦ (c ∷ []) ∷ [] | line ∷ others ↦ (c ∷ line) ∷ others ]

abbrev pub only : (ℕ → Bool) → Text → Bool
only test [] = true
only test (c ∷ cs) = test c && only test cs

unfoldable pub trim_right : (ℕ → Bool) → Text → Text
trim_right test [] = []
trim_right test (c ∷ cs) =
    let rest = trim_right test cs in if test c && not (has_any rest) then [] else c ∷ rest

unfoldable pub trim_left : (ℕ → Bool) → Text → Text
trim_left test [] = []
trim_left test (c ∷ cs) = if test c then trim_left test cs else c ∷ cs

unfoldable pub without_last {ℓ} : {A : Type ℓ} → List A → List A
without_last [] = []
without_last (x ∷ []) = []
without_last (x ∷ y ∷ xs) = x ∷ without_last (y ∷ xs)

-- The lines between the first and the last; a single line stays.
unfoldable pub inner_lines : List Text → List Text
unfolding without_last
inner_lines [] = []
inner_lines (line ∷ []) = line ∷ []
inner_lines (line ∷ next ∷ lines) = without_last (next ∷ lines)

abbrev pub without_space : Text → Text
without_space [] = []
without_space (c ∷ cs) = if c == b' ' then cs else c ∷ cs

-- One line without its star; `none` where it has none.
unfoldable pub doc_line : UnicodeTables → Text → Option Text
unfolding trim_right trim_left
doc_line u line =
    let whole = trim_right (λ c. c == b'\r') line in
    if only u.white_space whole
    then some []
    else elim (trim_left (λ c. c == b' ' || c == b'\t') whole) [
      | [] ↦ none
      | c ∷ cs ↦ if c == b'*' then some (without_space cs) else none
    ]

unfoldable pub doc_lines : UnicodeTables → List Text → Option (List Text)
unfolding doc_line
doc_lines u [] = some []
doc_lines u (line ∷ lines) =
    let rest = doc_lines u lines in
    elim (doc_line u line) [
      | some text ↦ elim rest [ some texts ↦ some (text ∷ texts) | none ↦ none ]
      | none ↦ none
    ]

unfoldable pub join_lines : List Text → Text
join_lines [] = []
join_lines (line ∷ []) = line
join_lines (line ∷ next ∷ lines) = line ++ (b'\n' ∷ join_lines (next ∷ lines))

unfoldable pub format_doc_comment : UnicodeTables → Text → Scanned
unfolding split_lines inner_lines doc_lines join_lines
format_doc_comment u raw = elim (doc_lines u (inner_lines (split_lines raw))) [
  | some lines ↦ scanned (join_lines lines)
  | none ↦ malformed (codes "doc comment lines must start with '*'")
]

unfoldable pub read_doc_comment : UnicodeTables → Lexer → Lexer × Scanned
unfolding read_doc_content format_doc_comment read_chars
read_doc_comment u l =
    if not (ch l == b'/') || not (peek_char l == b'*') || not (peek_two_chars l == b'*')
    then (l, scanned [])
    else (let (l', content) = read_doc_content (rounds l) true [] (read_chars 3 l) in
        (
          l',
          elim content [
            | some raw ↦ format_doc_comment u raw
            | none ↦ malformed (codes "unterminated doc comment")
          ],
        ))
