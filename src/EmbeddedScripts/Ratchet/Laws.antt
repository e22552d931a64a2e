-- ===== src/EmbeddedScripts/Ratchet/Laws.antt =====
-- scripts/check_no_embedded_scripts.py: the exit status of the ratchet, and the baseline file.
use ansible_platform.Prelude.{
  ℕ, ◌≤◌, String, ◌==◌, ==_sound, ◌≡◌, refl, subst, ap, sym, ◌↔◌, Bool, true, false, Bool-cases,
  ◌⊎◌, inl, inr, none, some, List, [], ◌∷◌, is_empty, contains, map, arith,
}
use ansible_platform.Prelude.Dict
use ansible_platform.Prelude.Dict.{Dict, NodupKeys}
use ansible_platform.EmbeddedScripts.Ratchet.{
  Counts, Found, categories, count_at, or_empty, counts_of, rose_in, fell_in, ratchet_over, ratchet,
  settle, write_baseline, run_ratchet,
}

-- No count is above the other's.
abbrev pub AtMost : Counts → Counts → Type 0
AtMost d a = (rel : String) → count_at d rel ≤ count_at a rel

rose_in-AtMost :
    (d a : Counts) (rel : String) → is_empty (rose_in d a) ≡ true → count_at d rel ≤ count_at a rel
unfolding rose_in Dict.get
rose_in-AtMost [] a rel h = omega arith
rose_in-AtMost ((k, n) ∷ d) a rel h = ground (arith, rose_in-AtMost d a rel)

tail-AtMost :
    (k : String) (n : ℕ) (d a : Counts) → Dict.get d k ≡ none → AtMost ((k, n) ∷ d) a → AtMost d a
unfolding Dict.get
tail-AtMost k n d a fresh h rel = ground (arith, h rel)

head-AtMost : (k : String) (n : ℕ) (d a : Counts) → AtMost ((k, n) ∷ d) a → n ≤ count_at a k
unfolding Dict.get
head-AtMost k n d a h = ground (arith, h k)

AtMost-rose_in : (d a : Counts) → NodupKeys d → AtMost d a → is_empty (rose_in d a) ≡ true
unfolding rose_in
AtMost-rose_in [] a u h = refl
AtMost-rose_in ((k, n) ∷ d) a (fresh, u) h =
    ground (arith, head-AtMost k n d a h, AtMost-rose_in d a u (tail-AtMost k n d a fresh h))

fell_in-AtMost :
    (d a : Counts) (rel : String) → fell_in d a ≡ false → count_at a rel ≤ count_at d rel
unfolding fell_in Dict.get
fell_in-AtMost d [] rel h = omega arith
fell_in-AtMost d ((k, n) ∷ a) rel h = ground (arith, fell_in-AtMost d a rel)

AtMost-fell_in : (d a : Counts) → NodupKeys a → AtMost a d → fell_in d a ≡ false
unfolding fell_in
AtMost-fell_in d [] u h = refl
AtMost-fell_in d ((k, n) ∷ a) (fresh, u) h =
    ground (arith, head-AtMost k n a d h, AtMost-fell_in d a u (tail-AtMost k n a d fresh h))

-- In every listed category no count is above the other's.
abbrev pub AllAtMost : List String → Found → Found → Type 0
AllAtMost [] f b = Unit
AllAtMost (c ∷ cs) f b = AtMost (counts_of f c) (counts_of b c) × AllAtMost cs f b

abbrev pub AllNodup : List String → Found → Type 0
AllNodup [] f = Unit
AllNodup (c ∷ cs) f = NodupKeys (counts_of f c) × AllNodup cs f

pub rose-AllAtMost :
    (cs : List String) (f b : Found) → is_empty (ratchet_over cs f b).0 ≡ true → AllAtMost cs f b
unfolding ratchet_over
rose-AllAtMost [] f b h = tt
rose-AllAtMost (c ∷ cs) f b h = (
  λ rel. rose_in-AtMost (counts_of f c) (counts_of b c) rel (ground arith),
  rose-AllAtMost cs f b (ground arith),
)

AllAtMost-rose :
    (cs : List String) (f b : Found)
    → AllNodup cs f
    → AllAtMost cs f b
    → is_empty (ratchet_over cs f b).0 ≡ true
unfolding ratchet_over
AllAtMost-rose [] f b u h = refl
AllAtMost-rose (c ∷ cs) f b (u, us) (h, hs) =
    rw (AtMost-rose_in (counts_of f c) (counts_of b c) u h) (AllAtMost-rose cs f b us hs)

fell-AllAtMost :
    (cs : List String) (f b : Found) → (ratchet_over cs f b).1 ≡ false → AllAtMost cs b f
unfolding ratchet_over
fell-AllAtMost [] f b h = tt
fell-AllAtMost (c ∷ cs) f b h = (
  λ rel. fell_in-AtMost (counts_of f c) (counts_of b c) rel (ground arith),
  fell-AllAtMost cs f b (ground arith),
)

AllAtMost-fell :
    (cs : List String) (f b : Found)
    → AllNodup cs b
    → AllAtMost cs b f
    → (ratchet_over cs f b).1 ≡ false
unfolding ratchet_over
AllAtMost-fell [] f b u h = refl
AllAtMost-fell (c ∷ cs) f b (u, us) (h, hs) =
    rw (AtMost-fell_in (counts_of f c) (counts_of b c) u h) (AllAtMost-fell cs f b us hs)

settle-zero :
    (r : List (String × Counts) × Bool) (f b : Found)
    → ((settle r f b).0 ≡ 0) ↔ ((is_empty r.0 ≡ true) × (r.1 ≡ false))
unfolding settle
settle-zero (rose, fell) f b = ground arith

settle-baseline :
    (r : List (String × Counts) × Bool) (f b : Found)
    → ((settle r f b).1 ≡ b) ⊎ ((is_empty r.0 ≡ true) × ((settle r f b).1 ≡ write_baseline f))
unfolding settle
settle-baseline ([], true) f b = inr (refl, refl)
settle-baseline ([], false) f b = inl refl
settle-baseline (x ∷ rose, fell) f b = inl refl

AllAtMost-refl : (cs : List String) (b : Found) → AllAtMost cs b b
AllAtMost-refl [] b = tt
AllAtMost-refl (c ∷ cs) b = (λ rel. omega arith, AllAtMost-refl cs b)

get-map_pairs :
    (g : String → Counts) (cs : List String) (c : String)
    → contains cs c ≡ true
    → Dict.get (map (λ (k : String). (k, g k)) cs) c ≡ some (g c)
unfolding Dict.get
get-map_pairs g [] c h = cc
get-map_pairs g (k ∷ cs) c h = elim (Bool-cases (k == c)) [
  | inl same ↦ rw same (ap some (ap g (==_sound k c same)))
  | inr other ↦ rw other (get-map_pairs g cs c (ground arith))
]

counts_of-write :
    (f : Found) (c : String)
    → contains categories c ≡ true
    → counts_of (write_baseline f) c ≡ counts_of f c
unfolding write_baseline
counts_of-write f c h = ap or_empty (get-map_pairs (counts_of f) categories c h)

written-AllAtMost :
    (cs : List String) (f b : Found)
    → ((c : String) → contains cs c ≡ true → counts_of (write_baseline f) c ≡ counts_of f c)
    → AllAtMost cs f b
    → AllAtMost cs (write_baseline f) b
written-AllAtMost [] f b e h = tt
written-AllAtMost (c ∷ cs) f b e (h, hs) = (
  subst (λ d. AtMost d (counts_of b c)) (sym (e c (ground arith))) h,
  written-AllAtMost cs f b (λ x m. e x (ground arith)) hs,
)

module _ (f b : Found) where
  -- The counts are those of the baseline: neither is above the other anywhere.
  abbrev pub IsBaseline : Type 0
  IsBaseline = AllAtMost categories f b × AllAtMost categories b f

  -- The ratchet exits with 0 exactly when every file has, in every category, the count of the
  -- baseline: one that rose and one that fell both fail the commit.
  pub run_ratchet_exact :
      AllNodup categories f → AllNodup categories b → ((run_ratchet f b).0 ≡ 0) ↔ IsBaseline
  unfolding run_ratchet ratchet
  run_ratchet_exact u v = (
    λ h.
        let (r, l) = (settle-zero (ratchet f b) f b).0 h in
        (rose-AllAtMost categories f b r, fell-AllAtMost categories f b l),
    λ (down, up).
        (settle-zero (ratchet f b) f b).1
          (AllAtMost-rose categories f b u down, AllAtMost-fell categories f b v up),
  )

  -- Whatever is found, no count of the baseline file is higher after the ratchet than before.
  pub run_ratchet_lowers : AllAtMost categories (run_ratchet f b).1 b
  unfolding run_ratchet ratchet
  run_ratchet_lowers = from (settle-baseline (ratchet f b) f b)
    where
      from :
          ((settle (ratchet f b) f b).1 ≡ b)
            ⊎ ((is_empty (ratchet f b).0 ≡ true)
                × ((settle (ratchet f b) f b).1 ≡ write_baseline f))
          → AllAtMost categories (settle (ratchet f b) f b).1 b
      from (inl e) = subst (λ d. AllAtMost categories d b) (sym e) (AllAtMost-refl categories b)
      from (inr (r, e)) =
          subst (λ d. AllAtMost categories d b) (sym e)
            (written-AllAtMost categories f b (counts_of-write f) (rose-AllAtMost categories f b r))
