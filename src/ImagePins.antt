-- ===== src/ImagePins.antt =====
-- scripts/check_image_pins.py: image references without an immutable tag. A directory is a tree of
-- named entries, a file is its bytes, and `decode` is Python's UTF-8 decoder. What cannot be opened
-- is `unreadable`. `main` starts in the root of the repository.
pub mod Laws
pub mod Lines
use Prim.Native.Char.{code}
use Prim.Native.String
use ansible_platform.Prelude.{
  ℕ, suc, leb, ◌=ℕ◌, ◌<>◌, String, ◌==◌, Bool, true, false, not, ◌&&◌, ◌||◌, Option, none, some,
  List, [], ◌∷◌, ◌++◌, any, contains, is_empty, String-discrete, if◌then◌else◌,
}
use ansible_platform.Prelude.Text.{drop_prefix, starts, occurs}
use ansible_platform.Prelude.Value.{decimal}

abbrev pub Bytes : Type 0
Bytes = List ℕ

-- What `os.scandir` lists: a symlink is not followed.
mutual
  pub data Tree : Type 0 where
    folder : Entries → Tree
    regular : Bytes → Tree
    unreadable link : Tree

  pub data Entries : Type 0 where
    end : Entries
    entry : String → Tree → Entries → Entries

-- `_files` below a folder, with the bytes of each file
unfoldable mutual
  pub files_at : String → Tree → List (String × Bytes)
  files_at path (folder es) = files_in path es
  files_at path (regular bytes) = (path, bytes) ∷ []
  files_at path unreadable = []
  files_at path link = []

  pub files_in : String → Entries → List (String × Bytes)
  files_in path end = []
  files_in path (entry name t es) = files_at (path <> ("/" <> name)) t ++ files_in path es

-- `_files` of a root: only a folder can be scanned.
unfoldable pub files_under : String → Tree → List (String × Bytes)
unfolding files_at
files_under top (folder es) = files_in top es
files_under top t = []

abbrev pub cons_byte : ℕ → List Bytes → List Bytes
cons_byte b [] = (b ∷ []) ∷ []
cons_byte b (l ∷ ls) = (b ∷ l) ∷ ls

-- `data.split(b"\n")`
unfoldable pub split_lines : Bytes → List Bytes
split_lines [] = [] ∷ []
split_lines (b ∷ bytes) =
    let rest = split_lines bytes in if b =ℕ 10 then [] ∷ rest else cons_byte b rest

-- `if lines[-1] == b"": lines.pop()`
unfoldable pub drop_last_empty : List Bytes → List Bytes
drop_last_empty [] = []
drop_last_empty (l ∷ []) = if is_empty l then [] else l ∷ []
drop_last_empty (l ∷ k ∷ ls) = l ∷ drop_last_empty (k ∷ ls)

-- The alternatives of the three patterns that name a tag
abbrev pub tags : List String
tags = "latest" ∷ "stable" ∷ "edge" ∷ "main" ∷ "master" ∷ []

-- `([" ]|$)`
abbrev pub tag_ends : String → Bool
tag_ends String.[] = true
tag_ends (String.◌∷◌ c s) = (code c =ℕ 34) || (code c =ℕ 32)

abbrev pub behind : Option String → (String → Bool) → Bool
behind none test = false
behind (some rest) test = test rest

-- A pattern that begins at the front of the text, at any of its positions
unfoldable pub found_in : (String → Bool) → String → Bool
found_in test String.[] = test String.[]
found_in test (String.◌∷◌ c s) = test (String.◌∷◌ c s) || found_in test s

abbrev pub tag_here : String → Bool
tag_here s = behind (drop_prefix ":" s) (λ r. any (λ t. behind (drop_prefix t r) tag_ends) tags)

-- MOVING_TAG
unfoldable pub has_moving_tag : String → Bool
unfolding drop_prefix found_in
has_moving_tag text = found_in tag_here text

-- `_WS`
abbrev pub is_ws : ℕ → Bool
is_ws c =
    (leb 9 c && leb c 13)
    || (c =ℕ 32)
    || (c =ℕ 5760)
    || (leb 8192 c && leb c 8198)
    || (leb 8200 c && leb c 8202)
    || (c =ℕ 8232)
    || (c =ℕ 8233)
    || (c =ℕ 8287)
    || (c =ℕ 12288)

abbrev pub is_digit : ℕ → Bool
is_digit c = leb 48 c && leb c 57

-- `[WS]*#`
unfoldable pub hash_here : String → Bool
hash_here String.[] = false
hash_here (String.◌∷◌ c s) = (code c =ℕ 35) || (is_ws (code c) && hash_here s)

-- `[0-9]*:[WS]*#`, and whether a digit was read
unfoldable pub number_here : Bool → String → Bool
unfolding hash_here
number_here read String.[] = false
number_here read (String.◌∷◌ c s) =
    (is_digit (code c) && number_here true s) || (read && ((code c =ℕ 58) && hash_here s))

-- `[^WS]*:[0-9]+:[WS]*#`, and whether a character was read
unfoldable pub comment_here : Bool → String → Bool
unfolding number_here
comment_here read String.[] = false
comment_here read (String.◌∷◌ c s) =
    (not (is_ws (code c)) && comment_here true s)
    || (read && ((code c =ℕ 58) && number_here false s))

abbrev pub any_tag_here : String → Bool
any_tag_here s = behind (drop_prefix ":" s) (λ r. any (λ t. starts r t) tags)

abbrev pub digit_first : String → Bool
digit_first String.[] = false
digit_first (String.◌∷◌ c r) = is_digit (code c)

abbrev pub release_here : String → Bool
release_here s = behind (drop_prefix "stable-" s) digit_first

-- `any(rx.found_in(record) for rx in NOT_CODE)`
unfoldable pub is_not_code : String → Bool
unfolding occurs comment_here found_in drop_prefix starts
is_not_code record_line =
    occurs ".md:" record_line
    || comment_here false record_line
    || found_in (λ s. behind (drop_prefix "#" s) (found_in any_tag_here)) record_line
    || found_in release_here record_line
    || occurs "/archive/" record_line

-- `f"{path}:{number}:{text}"`
unfoldable pub record_of : String → ℕ × String → String
unfolding decimal
record_of path (number, text) = path <> (":" <> (decimal number <> (":" <> text)))

-- One line of `moving_tags`
unfoldable pub is_moving : String → ℕ × String → Bool
unfolding has_moving_tag is_not_code record_of
is_moving path (number, text) =
    has_moving_tag text && not (is_not_code (record_of path (number, text)))

unfoldable pub moving_lines : String → List (ℕ × String) → List String
unfolding is_moving
moving_lines path [] = []
moving_lines path (l ∷ lines) =
    let rest = moving_lines path lines in if is_moving path l then record_of path l ∷ rest else rest

-- `[^"]*"`, and whether a character was read
unfoldable pub quoted_here : Bool → String → Bool
quoted_here read String.[] = false
quoted_here read (String.◌∷◌ c s) = if code c =ℕ 34 then read else quoted_here true s

abbrev pub is_name_char : ℕ → Bool
is_name_char c = (leb 97 c && leb c 122) || is_digit c || (c =ℕ 95)

-- IMAGE_VAR at the front of the text, and whether a character of the name was read
unfoldable pub image_var : Bool → String → Bool
unfolding drop_prefix quoted_here
image_var read String.[] = false
image_var read (String.◌∷◌ c s) =
    (read && behind (drop_prefix "_image: \"" (String.◌∷◌ c s)) (quoted_here false))
    || (is_name_char (code c) && image_var true s)

-- The lines of a file that `untagged_image_vars` reports
unfoldable pub untagged_lines : List (ℕ × String) → List String
unfolding image_var
untagged_lines [] = []
untagged_lines ((number, text) ∷ lines) =
    let rest = untagged_lines lines in
    let line = decimal number <> (":" <> text) in
    if image_var false text && (not (occurs "{{" line) && not (occurs ":" line))
    then line ∷ rest
    else rest

module _ (decode : Bytes → Option String) where
  -- `enumerate(lines, 1)`, without the lines that do not decode
  unfoldable pub numbered : ℕ → List Bytes → List (ℕ × String)
  numbered n [] = []
  numbered n (l ∷ ls) =
      let rest = numbered (suc n) ls in
      elim (decode l) [ none ↦ rest | some text ↦ (n, text) ∷ rest ]

  -- `_lines`
  unfoldable pub lines_of : Bytes → List (ℕ × String)
  unfolding numbered split_lines drop_last_empty
  lines_of bytes =
      if any (λ b. b =ℕ 0) bytes then [] else numbered 1 (drop_last_empty (split_lines bytes))

  unfoldable pub moving_files : List (String × Bytes) → List String
  unfolding moving_lines lines_of
  moving_files [] = []
  moving_files ((path, bytes) ∷ files) = moving_lines path (lines_of bytes) ++ moving_files files

  -- `moving_tags`, over the roots with what stands there
  unfoldable pub moving_tags : List (String × Tree) → List String
  unfolding moving_files files_under
  moving_tags [] = []
  moving_tags ((top, t) ∷ roots) = moving_files (files_under top t) ++ moving_tags roots

  -- `untagged_image_vars`, over the files of roles/*/defaults/main.yml
  unfoldable pub untagged_image_vars : List (String × Bytes) → List String
  unfolding untagged_lines lines_of
  untagged_image_vars [] = []
  untagged_image_vars ((path, bytes) ∷ files) =
      untagged_lines (lines_of bytes) ++ untagged_image_vars files

  -- `main`
  unfoldable pub main : List (String × Tree) → List (String × Bytes) → ℕ
  unfolding moving_tags untagged_image_vars
  main roots defaults =
      if is_empty (moving_tags roots ++ untagged_image_vars defaults) then 0 else 1
