-- ===== src/Tests/Pins.antt =====
-- scripts/check_image_pins.py on concrete trees.
use ansible_platform.Prelude.{
  ◌=ℕ◌, if◌then◌else◌, String, ◌≡◌, refl, true, false, Option, some, [], ◌∷◌, here, String-discrete,
}
use ansible_platform.ImagePins.{
  Bytes, Tree, Entries, files_at, files_under, moving_tags, main, lines_of, is_not_code, record_of,
  has_moving_tag,
}
use ansible_platform.ImagePins.Lines.{of_folder, first_line}
use ansible_platform.ImagePins.Laws.{IsExcused, main_pinned}

-- Two files: bytes 1 stand for a line with a tag that moves, in code, bytes 2 for one in a comment.
abbrev decoded : Bytes → Option String
decoded [] = some ""
decoded (n ∷ ns) = some (if n =ℕ 1 then "image: a:latest" else "x # not a:latest")

abbrev tree : Tree
tree = Tree.folder (Entries.entry "m.yml" (Tree.regular (2 ∷ 10 ∷ [])) Entries.end)

moves : has_moving_tag "image: a:latest" ≡ true
unfolding has_moving_tag
moves = refl

moves_not : has_moving_tag "image: a:latest-2" ≡ false
unfolding has_moving_tag
moves_not = refl

in_code : is_not_code "roles/a/m.yml:3:image: a:latest" ≡ false
unfolding is_not_code String-discrete
in_code = refl

in_comment : is_not_code "roles/a/m.yml:3:x # not a:latest" ≡ true
unfolding is_not_code String-discrete
in_comment = refl

reported :
    moving_tags decoded
      (("roles", Tree.folder (Entries.entry "m.yml" (Tree.regular (1 ∷ [])) Entries.end)) ∷ [])
    ≡ "roles/m.yml:1:image: a:latest" ∷ []
unfolding moving_tags String-discrete
reported = refl

main_pinned_example :
    (is_not_code "roles/m.yml:1:x # not a:latest" ≡ true)
    × IsExcused "roles/m.yml:1:x # not a:latest"
unfolding main files_at files_under lines_of is_not_code record_of String-discrete
main_pinned_example =
    main_pinned decoded (("roles", tree) ∷ []) [] "roles"
      (Entries.entry "m.yml" (Tree.regular (2 ∷ 10 ∷ [])) Entries.end) "roles/m.yml" (2 ∷ 10 ∷ [])
      (2 ∷ []) 1 "x # not a" "latest" "" refl here
      (of_folder "roles" "m.yml" (2 ∷ 10 ∷ []) Entries.end) refl
      (first_line (10 ∷ []) refl refl refl refl refl) refl refl refl
