-- ===== src/ImagePins/Laws.antt =====
-- scripts/check_image_pins.py: the lines of a file, and what a passing run says of them.
use Prim.Native.String.append
use text.Mathlib.Text.{starts_with}
use text.Mathlib.TextPositions.{starts_with-append}
use ansible_platform.Prelude.{
  ℕ, ◌=ℕ◌, ◌||◌, ◌⊎◌, ◌<>◌, String, ◌≡◌, refl, sym, subst, Bool, true, false, Option, some, List,
  [], ◌∷◌, ◌++◌, In, here, there, any, contains, ==_sound, is_empty, arith,
}
use ansible_platform.Prelude.Text.{drop_prefix, occurs}
use ansible_platform.Prelude.Substring.{drop_prefix-append}
use ansible_platform.Prelude.Value.{decimal}
use ansible_platform.ImagePins.Lines.{FileIn, files_in-FileIn, IsLine, lines_of-IsLine}
use Prim.Native.Char.{code}
use ansible_platform.ImagePins.{
  Entries, hash_here, number_here, comment_here, any_tag_here, release_here, Bytes, Tree,
  files_under, tags, tag_ends, behind, found_in, tag_here, has_moving_tag, is_not_code, record_of,
  is_moving, moving_lines, untagged_lines, lines_of, moving_files, moving_tags, untagged_image_vars,
  main,
}

found_at_front : (s : String) → starts_with s ":" ≡ true → occurs ":" s ≡ true
unfolding occurs
found_at_front String.[] h = ground (arith, h)
found_at_front (String.◌∷◌ c s) h = ground (arith, h)

occurs-colon : (a b : String) → occurs ":" (a <> (":" <> b)) ≡ true
unfolding occurs
occurs-colon String.[] b =
    subst (λ w. occurs ":" w ≡ true) (sym (append.nil (":" <> b)))
      (found_at_front (":" <> b) (starts_with-append ":" b))
occurs-colon (String.◌∷◌ c a) b =
    subst (λ w. occurs ":" w ≡ true) (sym (append.cons c a (":" <> b)))
      (ground (arith, occurs-colon a b))

-- The second check never reports.
untagged_lines-nil : (lines : List (ℕ × String)) → untagged_lines lines ≡ []
unfolding untagged_lines
untagged_lines-nil [] = refl
untagged_lines-nil ((number, text) ∷ lines) =
    ground (arith, occurs-colon (decimal number) text, untagged_lines-nil lines)

found_in-front : (test : String → Bool) (s : String) → test s ≡ true → found_in test s ≡ true
unfolding found_in
found_in-front test String.[] h = h
found_in-front test (String.◌∷◌ c s) h = ground (arith, h)

found_in-append :
    (test : String → Bool) (a s : String) → test s ≡ true → found_in test (a <> s) ≡ true
unfolding found_in
found_in-append test String.[] s h =
    subst (λ w. found_in test w ≡ true) (sym (append.nil s)) (found_in-front test s h)
found_in-append test (String.◌∷◌ c a) s h =
    subst (λ w. found_in test w ≡ true) (sym (append.cons c a s))
      (ground (arith, found_in-append test a s h))

any-contains :
    (p : String → Bool) (ts : List String) (t : String)
    → contains ts t ≡ true
    → p t ≡ true
    → any p ts ≡ true
any-contains p [] t m h = ground (arith, m)
any-contains p (u ∷ ts) t m h = grind (arith, ==_sound t u, any-contains p ts t, m, h)

tag_here-tag :
    (t rest : String)
    → contains tags t ≡ true
    → tag_ends rest ≡ true
    → tag_here (":" <> (t <> rest)) ≡ true
tag_here-tag t rest m h = rw (drop_prefix-append ":" (t <> rest)) (
    any-contains (λ u. behind (drop_prefix u (t <> rest)) tag_ends) tags t m
      (rw (drop_prefix-append t rest) h))

has_moving_tag-tag :
    (a t rest : String)
    → contains tags t ≡ true
    → tag_ends rest ≡ true
    → has_moving_tag (a <> (":" <> (t <> rest))) ≡ true
unfolding has_moving_tag
has_moving_tag-tag a t rest m h =
    found_in-append tag_here a (":" <> (t <> rest)) (tag_here-tag t rest m h)

module _ (decode : Bytes → Option String) where
  -- The second check never reports, whatever the files are.
  pub untagged_image_vars-nil :
      (files : List (String × Bytes)) → untagged_image_vars decode files ≡ []
  unfolding untagged_image_vars
  untagged_image_vars-nil [] = refl
  untagged_image_vars-nil ((path, bytes) ∷ files) =
      grind (arith, untagged_lines-nil (lines_of decode bytes), untagged_image_vars-nil files)

  is_empty-left : (xs ys : List String) → is_empty (xs ++ ys) ≡ true → is_empty xs ≡ true
  is_empty-left [] ys h = refl
  is_empty-left (x ∷ xs) ys h = h

  is_empty-right : (xs ys : List String) → is_empty (xs ++ ys) ≡ true → is_empty ys ≡ true
  is_empty-right [] ys h = h
  is_empty-right (x ∷ xs) ys h = ground (arith, h)

  moving_lines-not :
      (path : String) (lines : List (ℕ × String)) (l : ℕ × String)
      → is_empty (moving_lines path lines) ≡ true
      → In l lines
      → is_moving path l ≡ false
  unfolding moving_lines
  moving_lines-not path [] l e m = elim m [ ]
  moving_lines-not path (l ∷ lines) _ e here = ground (arith, e)
  moving_lines-not path (k ∷ lines) l e (there m) =
      ground (arith, e, moving_lines-not path lines l _ m)

  moving_files-not :
      (files : List (String × Bytes)) (path : String) (bytes : Bytes) (l : ℕ × String)
      → is_empty (moving_files decode files) ≡ true
      → In (path, bytes) files
      → In l (lines_of decode bytes)
      → is_moving path l ≡ false
  unfolding moving_files
  moving_files-not [] path bytes l e m k = elim m [ ]
  moving_files-not ((path, bytes) ∷ files) _ _ l e here k =
      moving_lines-not path (lines_of decode bytes) l (is_empty-left _ _ e) k
  moving_files-not ((p, b) ∷ files) path bytes l e (there m) k =
      moving_files-not files path bytes l (is_empty-right (moving_lines p (lines_of decode b)) _ e)
        m k

  moving_tags-not :
      (roots : List (String × Tree)) (top : String) (t : Tree) (path : String) (bytes : Bytes)
      (l : ℕ × String)
      → is_empty (moving_tags decode roots) ≡ true
      → In (top, t) roots
      → In (path, bytes) (files_under top t)
      → In l (lines_of decode bytes)
      → is_moving path l ≡ false
  unfolding moving_tags
  moving_tags-not [] top t path bytes l e r m k = elim r [ ]
  moving_tags-not ((top, t) ∷ roots) _ _ path bytes l e here m k =
      moving_files-not (files_under top t) path bytes l (is_empty-left _ _ e) m k
  moving_tags-not ((u, v) ∷ roots) top t path bytes l e (there r) m k =
      moving_tags-not roots top t path bytes l
        (is_empty-right (moving_files decode (files_under u v)) _ e) r m k

  main-zero :
      (roots : List (String × Tree)) (defaults : List (String × Bytes))
      → main decode roots defaults ≡ 0
      → is_empty (moving_tags decode roots) ≡ true
  unfolding main
  main-zero roots defaults h =
      grind
        (arith, is_empty-left (moving_tags decode roots) (untagged_image_vars decode defaults), h)

  -- A line that is read, with a tag that moves
  tag_read :
      (roots : List (String × Tree)) (defaults : List (String × Bytes))
      → main decode roots defaults ≡ 0
      → (top : String) (t : Tree) → In (top, t) roots
      → (path : String) (bytes : Bytes) → In (path, bytes) (files_under top t)
      → (n : ℕ) (a tag rest : String) → In (n, a <> (":" <> (tag <> rest))) (lines_of decode bytes)
      → contains tags tag ≡ true
      → tag_ends rest ≡ true
      → is_not_code (record_of path (n, a <> (":" <> (tag <> rest)))) ≡ true
  unfolding is_moving
  tag_read roots defaults h top t r path bytes m n a tag rest k g e = ground (
    arith,
    has_moving_tag-tag a tag rest g e,
    moving_tags-not roots top t path bytes (n, a <> (":" <> (tag <> rest)))
        (main-zero roots defaults h) r m k,
  )

-- The character of this code stands in the text.
abbrev pub has_char : ℕ → String → Bool
has_char n String.[] = false
has_char n (String.◌∷◌ c s) = (code c =ℕ n) || has_char n s

-- The record is excused: its path is of Markdown or archived, it has a `#`, or a release name.
abbrev pub IsExcused : String → Type 0
IsExcused r =
    (occurs ".md:" r ≡ true)
    ⊎ ((has_char 35 r ≡ true) ⊎ ((found_in release_here r ≡ true) ⊎ (occurs "/archive/" r ≡ true)))

hash_here-has_char : (s : String) → hash_here s ≡ true → has_char 35 s ≡ true
unfolding hash_here
hash_here-has_char String.[] h = cc
hash_here-has_char (String.◌∷◌ c s) h = ground (arith, h, hash_here-has_char s)

number_here-has_char : (read : Bool) (s : String) → number_here read s ≡ true → has_char 35 s ≡ true
unfolding number_here
number_here-has_char read String.[] h = cc
number_here-has_char read (String.◌∷◌ c s) h =
    ground (arith, h, hash_here-has_char s, number_here-has_char true s)

comment_here-has_char :
    (read : Bool) (s : String) → comment_here read s ≡ true → has_char 35 s ≡ true
unfolding comment_here
comment_here-has_char read String.[] h = cc
comment_here-has_char read (String.◌∷◌ c s) h =
    ground (arith, h, number_here-has_char false s, comment_here-has_char true s)

hash-has_char :
    (test : String → Bool) (s : String)
    → behind (drop_prefix "#" s) test ≡ true
    → has_char 35 s ≡ true
unfolding drop_prefix
hash-has_char test String.[] h = cc
hash-has_char test (String.◌∷◌ c s) h = ground (arith, h)

found_in-has_char :
    (test : String → Bool) (s : String)
    → found_in (λ w. behind (drop_prefix "#" w) test) s ≡ true
    → has_char 35 s ≡ true
unfolding found_in
found_in-has_char test String.[] h = hash-has_char test "" h
found_in-has_char test (String.◌∷◌ c s) h =
    ground (arith, h, hash-has_char test (String.◌∷◌ c s), found_in-has_char test s)

is_not_code-IsExcused : (r : String) → is_not_code r ≡ true → IsExcused r
unfolding is_not_code
is_not_code-IsExcused r h =
    ground (arith, h, comment_here-has_char false r, found_in-has_char (found_in any_tag_here) r)

-- If the check exits with 0, then every line with a moving tag behind a colon, and before a space, a
-- quote or the end of the line, is excused: by the exceptions of the script, and so by its path, a `#`
-- or a release name in it. The line may be any of any file in or below the folder of a root, if the
-- file has no NUL byte and the line decodes.
pub main_pinned :
    (decode : Bytes → Option String) (roots : List (String × Tree))
    (defaults : List (String × Bytes)) (top : String) (es : Entries) (path : String)
    (bytes raw : Bytes) (n : ℕ) (a tag rest : String)
    → main decode roots defaults ≡ 0
    → In (top, Tree.folder es) roots
    → FileIn top es path bytes
    → any (λ b. b =ℕ 0) bytes ≡ false
    → IsLine n raw bytes
    → decode raw ≡ some (a <> (":" <> (tag <> rest)))
    → contains ("latest" ∷ "stable" ∷ "edge" ∷ "main" ∷ "master" ∷ []) tag ≡ true
    → tag_ends rest ≡ true
    → (is_not_code (record_of path (n, a <> (":" <> (tag <> rest)))) ≡ true)
      × IsExcused (path <> (":" <> (decimal n <> (":" <> (a <> (":" <> (tag <> rest)))))))
unfolding files_under record_of
main_pinned decode roots defaults top es path bytes raw n a tag rest h r f z l d g e =
    let excepted =
      tag_read decode roots defaults h top (Tree.folder es) r path bytes
        (files_in-FileIn top es path bytes f) n a tag rest
        (lines_of-IsLine decode bytes raw n (a <> (":" <> (tag <> rest))) z l d) g e in
    (excepted, is_not_code-IsExcused _ excepted)
