-- ===== src/ImagePins/Lines.antt =====
-- scripts/check_image_pins.py: the lines that stand in the bytes of a file, and the files of a folder.
use ansible_platform.Prelude.{
  ℕ, suc, ◌+◌, ◌=ℕ◌, ◌<>◌, String, ◌≡◌, refl, sym, ap, subst, ◌∙◌, false, Option, none, some, List,
  [], ◌∷◌, ◌++◌, In, here, there, In-left, In-right, any, length, is_empty, arith, if◌then◌else◌,
}
use ansible_platform.ImagePins.{
  Bytes, Tree, Entries, files_at, files_in, split_lines, drop_last_empty, cons_byte, numbered,
  lines_of,
}

-- The file stands in the folder or below it.
pub data FileIn : String → Entries → String → Bytes → Type 0 where
  of_folder :
      (top name : String) (bytes : Bytes) (es : Entries)
      → FileIn top (Entries.entry name (Tree.regular bytes) es) (top <> ("/" <> name)) bytes
  below :
      (top name : String) (fs es : Entries) (path : String) (bytes : Bytes)
      → FileIn (top <> ("/" <> name)) fs path bytes
      → FileIn top (Entries.entry name (Tree.folder fs) es) path bytes
  behind :
      (top name : String) (t : Tree) (es : Entries) (path : String) (bytes : Bytes)
      → FileIn top es path bytes
      → FileIn top (Entries.entry name t es) path bytes

pub files_in-FileIn :
    (top : String) (es : Entries) (path : String) (bytes : Bytes)
    → FileIn top es path bytes
    → In (path, bytes) (files_in top es)
unfolding files_at
files_in-FileIn _ _ _ _ (of_folder top name bytes es) = here
files_in-FileIn _ _ _ _ (below top name fs es path bytes f) =
    In-left (path, bytes) _ _ (files_in-FileIn (top <> ("/" <> name)) fs path bytes f)
files_in-FileIn _ _ _ _ (behind top name t es path bytes f) =
    In-right (path, bytes) (files_at (top <> ("/" <> name)) t) _
      (files_in-FileIn top es path bytes f)

-- The number of LF bytes
abbrev pub count_lf : Bytes → ℕ
count_lf [] = 0
count_lf (b ∷ bytes) = if b =ℕ 10 then suc (count_lf bytes) else count_lf bytes

-- The end of the file, or an LF
abbrev pub EndsLine : Bytes → Type 0
EndsLine [] = Unit
EndsLine (b ∷ bytes) = b ≡ 10

-- The bytes between two LF, or before the first or behind the last of a file, with the number of
-- their line. They are not empty.
pub data IsLine (number : ℕ) (raw bytes : Bytes) : Type 0 where
  first_line :
      (after : Bytes)
      → number ≡ 1
      → bytes ≡ raw ++ after
      → any (λ b. b =ℕ 10) raw ≡ false
      → is_empty raw ≡ false
      → EndsLine after
      → IsLine number raw bytes
  later_line :
      (before after : Bytes)
      → number ≡ 2 + count_lf before
      → bytes ≡ before ++ (10 ∷ (raw ++ after))
      → any (λ b. b =ℕ 10) raw ≡ false
      → is_empty raw ≡ false
      → EndsLine after
      → IsLine number raw bytes

cons_byte-append :
    (b : ℕ) (ls ks : List Bytes)
    → is_empty ls ≡ false
    → cons_byte b (ls ++ ks) ≡ cons_byte b ls ++ ks
cons_byte-append b [] ks h = cc
cons_byte-append b (l ∷ ls) ks h = refl

cons_byte-ne : (b : ℕ) (ls : List Bytes) → is_empty (cons_byte b ls) ≡ false
cons_byte-ne b [] = refl
cons_byte-ne b (l ∷ ls) = refl

split_lines-ne : (bytes : Bytes) → is_empty (split_lines bytes) ≡ false
unfolding split_lines
split_lines-ne [] = refl
split_lines-ne (b ∷ bytes) = ground (arith, cons_byte-ne b (split_lines bytes))

split_lines-append :
    (before s : Bytes) → split_lines (before ++ (10 ∷ s)) ≡ split_lines before ++ split_lines s
unfolding split_lines
split_lines-append [] s = refl
split_lines-append (b ∷ before) s = grind (
  arith,
  split_lines-append before s,
  cons_byte-append b (split_lines before) (split_lines s),
  split_lines-ne before,
)

length-cons_byte :
    (b : ℕ) (ls : List Bytes) → is_empty ls ≡ false → length (cons_byte b ls) ≡ length ls
length-cons_byte b [] h = cc
length-cons_byte b (l ∷ ls) h = refl

length-split_lines : (bytes : Bytes) → length (split_lines bytes) ≡ suc (count_lf bytes)
unfolding split_lines
length-split_lines [] = refl
length-split_lines (b ∷ bytes) =
    grind (
      arith,
      length-split_lines bytes,
      length-cons_byte b (split_lines bytes),
      split_lines-ne bytes,
    )

-- The lines behind a line
abbrev tail_lines : Bytes → List Bytes
tail_lines [] = []
tail_lines (b ∷ bytes) = split_lines bytes

split_lines-raw :
    (raw after : Bytes)
    → any (λ b. b =ℕ 10) raw ≡ false
    → EndsLine after
    → split_lines (raw ++ after) ≡ raw ∷ tail_lines after
unfolding split_lines
split_lines-raw [] [] h e = refl
split_lines-raw [] (b ∷ after) h e = rw e refl
split_lines-raw (b ∷ raw) after h e =
    ground (arith, h, split_lines-raw raw after (ground (arith, h)) e)

one_more : (k : ℕ) → 1 + suc k ≡ 2 + k
one_more k = omega arith

module _ (decode : Bytes → Option String) where
  numbered-there :
      (n : ℕ) (l : Bytes) (ls : List Bytes) (x : ℕ × String)
      → In x (numbered decode (suc n) ls)
      → In x (numbered decode n (l ∷ ls))
  unfolding numbered
  numbered-there n l ls x m = go (decode l)
    where
      go :
          (o : Option String)
          → In x (elim o [
            | none ↦ numbered decode (suc n) ls
            | some text ↦ (n, text) ∷ numbered decode (suc n) ls
          ])
      go none = m
      go (some text) = there m

  numbered-here :
      (n : ℕ) (raw : Bytes) (ls : List Bytes) (text : String)
      → decode raw ≡ some text
      → In (n, text) (numbered decode n (raw ∷ ls))
  unfolding numbered
  numbered-here n raw ls text d =
      subst
        (λ o.
          In (n, text)
            (elim o [
              | none ↦ numbered decode (suc n) ls
              | some t ↦ (n, t) ∷ numbered decode (suc n) ls
            ]))
        (sym d) here

  drop_last_empty-cons :
      (x raw : Bytes) (xs ys : List Bytes)
      → drop_last_empty (x ∷ (xs ++ raw ∷ ys)) ≡ x ∷ drop_last_empty (xs ++ raw ∷ ys)
  unfolding drop_last_empty
  drop_last_empty-cons x raw [] ys = refl
  drop_last_empty-cons x raw (z ∷ xs) ys = refl

  drop_last_empty-raw :
      (raw : Bytes) (ys : List Bytes)
      → is_empty raw ≡ false
      → (rest : List Bytes) × (drop_last_empty (raw ∷ ys) ≡ raw ∷ rest)
  unfolding drop_last_empty
  drop_last_empty-raw raw [] h = ([], rw h refl)
  drop_last_empty-raw raw (y ∷ ys) h = (drop_last_empty (y ∷ ys), refl)

  numbered-In :
      (xs ys : List Bytes) (raw : Bytes) (n : ℕ) (text : String)
      → is_empty raw ≡ false
      → decode raw ≡ some text
      → In (n + length xs, text) (numbered decode n (drop_last_empty (xs ++ raw ∷ ys)))
  numbered-In [] ys raw n text h d =
      let (rest, e) = drop_last_empty-raw raw ys h in
      rw e (
        subst (λ k. In (k, text) (numbered decode n (raw ∷ rest))) (omega arith)
          (numbered-here n raw rest text d))
  numbered-In (x ∷ xs) ys raw n text h d = rw (drop_last_empty-cons x raw xs ys) (
      numbered-there n x (drop_last_empty (xs ++ raw ∷ ys)) (n + suc (length xs), text)
        (subst (λ k. In (k, text) (numbered decode (suc n) (drop_last_empty (xs ++ raw ∷ ys))))
          (omega arith) (numbered-In xs ys raw (suc n) text h d)))

  -- Every line of a file without a NUL byte that decodes is among those that the script reads.
  pub lines_of-IsLine :
      (bytes raw : Bytes) (n : ℕ) (text : String)
      → any (λ b. b =ℕ 0) bytes ≡ false
      → IsLine n raw bytes
      → decode raw ≡ some text
      → In (n, text) (lines_of decode bytes)
  unfolding lines_of
  lines_of-IsLine bytes raw n text z (first_line after e s no_lf ne q) d = rw z (
      rw (s, e, split_lines-raw raw after no_lf q)
        (numbered-In [] (tail_lines after) raw 1 text ne d))
  lines_of-IsLine bytes raw n text z (later_line before after e s no_lf ne q) d = rw z (
      rw (s, e, split_lines-append before (raw ++ after), split_lines-raw raw after no_lf q)
        (subst
          (λ k.
            In (k, text)
              (numbered decode 1 (drop_last_empty (split_lines before ++ raw ∷ tail_lines after))))
          (ap (λ k. 1 + k) (length-split_lines before) ∙ one_more (count_lf before))
          (numbered-In (split_lines before) (tail_lines after) raw 1 text ne d)))
