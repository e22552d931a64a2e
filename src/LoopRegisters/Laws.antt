-- ===== src/LoopRegisters/Laws.antt =====
-- scripts/check_loop_on_skipped_register.py: what a report of `scan` stands for.
use ansible_platform.Prelude.{
  ℕ, zero, suc, ◌+◌, ◌<◌, String, ◌==◌, ◌≡◌, ◌⊎◌, inl, inr, refl, sym, ap, subst, ◌∙◌, Bool,
  Bool-cases, true, false, not, ◌&&◌, Option, none, some, List, [], ◌∷◌, In, here, there, In-split,
  ==_sound, if◌then◌else◌, arith,
}
use mathlib.Core.Option.{some-injective}
use ansible_platform.Prelude.Text.{occurs}
use ansible_platform.Prelude.Dict
use ansible_platform.Prelude.Dict.{Dict}
use ansible_platform.LoopRegisters.{
  module_of, register_of, is_loop, is_safe, mentions, window, Seen, registered, see_module, see,
  Hit, hits_of, hits_from, scan,
}

-- `lines[i]`
abbrev pub line_at : List String → ℕ → Option String
line_at [] i = none
line_at (l ∷ ls) zero = some l
line_at (l ∷ ls) (suc i) = line_at ls i

-- No line between the two names a module that --check skips or registers a name.
abbrev pub NothingBetween : List String → ℕ → ℕ → Type 0
NothingBetween lines first index =
    (k : ℕ) (l : String)
    → first < k
    → k < index
    → line_at lines k ≡ some l
    → (module_of l ≡ none) × (register_of l ≡ none)

-- Line `declared` registers the name, for the module in line `first` before it: nothing between the two
-- names a module or registers, and no line around them says that the task runs under --check.
pub record IsRegistered (lines : List String) (name m : String) (declared : ℕ) : Type 0 where
  pub index : ℕ
  pub is_declared : declared ≡ suc index
  pub line : String
  pub is_line : line_at lines index ≡ some line
  pub names : register_of line ≡ some name
  pub first : ℕ
  pub module_line : String
  pub is_module_line : line_at lines first ≡ some module_line
  pub names_module : module_of module_line ≡ some m
  pub is_before : first < index
  pub between : NothingBetween lines first index
  pub may_skip : occurs "check_mode: false" (window lines first index) ≡ false

-- Line `line_no` loops over a field of the name, without a default.
pub record IsLoopOver (lines : List String) (name : String) (line_no : ℕ) : Type 0 where
  pub index : ℕ
  pub is_line_no : line_no ≡ suc index
  pub line : String
  pub is_line : line_at lines index ≡ some line
  pub loops : is_loop line ≡ true
  pub unsafe : is_safe line ≡ false
  pub over : mentions name line ≡ true

In-cons : {A : Type 0} (a x : A) (xs : List A) → In a (x ∷ xs) → (a ≡ x) ⊎ In a xs
In-cons a _ xs here = inl refl
In-cons a x xs (there m) = inr m

put-In :
    {V : Type 0} (k : String) (v : V) (d : Dict V) (j : String) (w : V)
    → In (j, w) (Dict.put k v d)
    → ((j ≡ k) × (w ≡ v)) ⊎ In (j, w) d
unfolding Dict.put
put-In k v [] _ _ here = inl (refl, refl)
put-In k v [] j w (there m) = elim m [ ]
put-In k v ((i, u) ∷ d) j w m = elim (Bool-cases (i == k)) [
  | inl e ↦ elim (In-cons (j, w) (i, v) d (rw e at m)) [
    | inl q ↦ inl (ap (λ t. t.0) q ∙ ==_sound i k e, ap (λ t. t.1) q)
    | inr n ↦ inr (there n)
  ]
  | inr e ↦ elim (In-cons (j, w) (i, u) (Dict.put k v d) (rw e at m)) [
    | inl q ↦ inr (subst (λ t. In (j, w) (t ∷ d)) q here)
    | inr n ↦ elim (put-In k v d j w n) [ inl x ↦ inl x | inr x ↦ inr (there x) ]
  ]
]

before_cases : (k i : ℕ) → k < suc i → (k ≡ i) ⊎ (k < i)
before_cases k i h = ground arith

module _ (lines : List String) where
  -- What is kept of the first `i` lines
  record Sound (i : ℕ) (s : Seen) : Type 0 where
    pending_line :
        (m : String) (first : ℕ)
        → s.pending ≡ some (m, first)
        → (l : String) × (line_at lines first ≡ some l) × (module_of l ≡ some m)
    pending_is_before :
        (m : String) (first : ℕ)
        → s.pending ≡ some (m, first)
        → (first < i) × NothingBetween lines first i
    all_registered :
        (name m : String) (declared : ℕ)
        → In (name, (m, declared)) s.registers
        → IsRegistered lines name m declared

  -- The register that a line adds
  placed :
      (i : ℕ) (line name m : String) (first : ℕ) (s : Seen)
      → line_at lines i ≡ some line
      → register_of line ≡ some name
      → Sound i s
      → s.pending ≡ some (m, first)
      → occurs "check_mode: false" (window lines first i) ≡ false
      → IsRegistered lines name m (suc i)
  placed i line name m first s is_i names h p may_skip =
      let (l, at_first, is_module) = h.pending_line m first p in
      let (is_before, between) = h.pending_is_before m first p in
      record {
        index = i;
        is_declared = refl;
        line = line;
        is_line = is_i;
        names = names;
        first = first;
        module_line = l;
        is_module_line = at_first;
        names_module = is_module;
        is_before = is_before;
        between = between;
        may_skip = may_skip;
      }

  put-Sound :
      (i : ℕ) (name m : String) (declared : ℕ) (s : Seen) (k n : String) (j : ℕ)
      → IsRegistered lines name m declared
      → Sound i s
      → In (k, (n, j)) (Dict.put name (m, declared) s.registers)
      → IsRegistered lines k n j
  put-Sound i name m declared s k n j r h x =
      elim (put-In name (m, declared) s.registers k (n, j) x) [
        | inl e ↦
            subst (λ x. IsRegistered lines x n j) (sym e.0)
              (subst (λ t. IsRegistered lines name t.0 t.1) (sym e.1) r)
        | inr i ↦ h.all_registered k n j i
      ]

  -- One more line without a module or a register
  NothingBetween-suc :
      (first i : ℕ) (line : String)
      → line_at lines i ≡ some line
      → module_of line ≡ none
      → register_of line ≡ none
      → NothingBetween lines first i
      → NothingBetween lines first (suc i)
  NothingBetween-suc first i line is_i no_module no_register h k l a b e =
      elim (before_cases k i b) [
        | inl q ↦
            let same = some-injective line l (sym is_i ∙ sym (ap (λ n. line_at lines n) q) ∙ e) in
            (
              subst (λ x. module_of x ≡ none) same no_module,
              subst (λ x. register_of x ≡ none) same no_register,
            )
        | inr c ↦ h k l a c e
      ]

  registered-Sound :
      (i : ℕ) (line : String) (name : Option String) (pending : Option (String × ℕ)) (s : Seen)
      → line_at lines i ≡ some line
      → register_of line ≡ name
      → s.pending ≡ pending
      → module_of line ≡ none
      → Sound i s
      → Sound (suc i) (registered lines i name pending s)
  unfolding registered
  registered-Sound i line none pending s is_i e p absent h = record {
    pending_line = h.pending_line;
    pending_is_before = λ m first q.
        let (is_before, between) = h.pending_is_before m first q in
        (omega arith, NothingBetween-suc first i line is_i absent e between);
    all_registered = h.all_registered;
  }
  registered-Sound i line (some name) none s is_i e p absent h = record {
    pending_line = h.pending_line;
    pending_is_before = λ m first q. absurd (cc);
    all_registered = h.all_registered;
  }
  registered-Sound i line (some name) (some (m, first)) s is_i e p absent h =
      elim (Bool-cases (occurs "check_mode: false" (window lines first i))) [
        | inl never ↦ rw never (record {
          pending_line = λ k f q. absurd (cc);
          pending_is_before = λ k f q. absurd (cc);
          all_registered = h.all_registered;
        })
        | inr may ↦ rw may (record {
          pending_line = λ k f q. absurd (cc);
          pending_is_before = λ k f q. absurd (cc);
          all_registered = λ k n j.
              put-Sound i name m (suc i) s k n j (placed i line name m first s is_i e h p may) h;
        })
      ]

  see_module-Sound :
      (i : ℕ) (line : String) (m : Option String) (s : Seen)
      → line_at lines i ≡ some line
      → module_of line ≡ m
      → Sound i s
      → Sound (suc i) (see_module lines i line m s)
  see_module-Sound i line (some m) s is_i e h = record {
    pending_line = λ k first p.
        let q = some-injective (m, i) (k, first) p in
        (
          line,
          subst (λ x. line_at lines x ≡ some line) (ap (λ t. t.1) q) is_i,
          subst (λ x. module_of line ≡ some x) (ap (λ t. t.0) q) e,
        );
    pending_is_before = λ k first p.
        let q = ap (λ t. t.1) (some-injective (m, i) (k, first) p) in
        (omega arith, λ j l a b e. absurd (omega arith));
    all_registered = h.all_registered;
  }
  see_module-Sound i line none s is_i e h =
      registered-Sound i line (register_of line) s.pending s is_i refl refl e h

  -- `rest` is what stands in the file from line `i` on.
  see-Sound :
      (i : ℕ) (rest : List String) (s : Seen)
      → ((k : ℕ) → line_at rest k ≡ line_at lines (i + k))
      → Sound i s
      → (n : ℕ) × Sound n (see lines i rest s)
  unfolding see
  see-Sound i [] s from h = (i, h)
  see-Sound i (line ∷ rest) s from h =
      see-Sound (suc i) rest (see_module lines i line (module_of line) s)
        (λ k. from (suc k) ∙ ap (λ n. line_at lines n) (omega arith))
        (see_module-Sound i line (module_of line) s
          (sym (from 0 ∙ ap (λ n. line_at lines n) (omega arith))) refl h)

  -- What a hit says
  abbrev Reported : Hit → Type 0
  Reported h =
      IsRegistered lines h.name h.module_name h.declared × IsLoopOver lines h.name h.line_no

  hits_of-Reported :
      (i : ℕ) (line : String) (registers : Dict (String × ℕ)) (h : Hit)
      → line_at lines i ≡ some line
      → is_loop line ≡ true
      → is_safe line ≡ false
      → ((name m : String) (declared : ℕ)
          → In (name, (m, declared)) registers
          → IsRegistered lines name m declared)
      → In h (hits_of i line registers)
      → Reported h
  unfolding hits_of
  hits_of-Reported i line [] h is_i loops unsafe all k = elim k [ ]
  hits_of-Reported i line ((name, (m, declared)) ∷ registers) h is_i loops unsafe all k =
      elim (Bool-cases (mentions name line)) [
        | inl over ↦ elim (In-cons h _ _ (rw over at k)) [
          | inl q ↦
              subst (λ x. Reported x) (sym q)
                (
                  all name m declared here,
                  record {
                    index = i;
                    is_line_no = refl;
                    line = line;
                    is_line = is_i;
                    loops = loops;
                    unsafe = unsafe;
                    over = over;
                  },
                )
          | inr n ↦
              hits_of-Reported i line registers h is_i loops unsafe (λ a b c d. all a b c (there d))
                n
        ]
        | inr never ↦
            hits_of-Reported i line registers h is_i loops unsafe (λ a b c d. all a b c (there d))
              (rw never at k)
      ]

  line-Reported :
      (i : ℕ) (line : String) (registers : Dict (String × ℕ)) (h : Hit)
      → line_at lines i ≡ some line
      → ((name m : String) (declared : ℕ)
          → In (name, (m, declared)) registers
          → IsRegistered lines name m declared)
      → (loops unsafe : Bool) → is_loop line ≡ loops
      → is_safe line ≡ unsafe
      → In h (if loops && not unsafe then hits_of i line registers else [])
      → Reported h
  line-Reported i line registers h is_i all true false e f k =
      hits_of-Reported i line registers h is_i e f all k
  line-Reported i line registers h is_i all true true e f k = elim k [ ]
  line-Reported i line registers h is_i all false unsafe e f k = elim k [ ]

  hits_from-Reported :
      (i : ℕ) (rest : List String) (registers : Dict (String × ℕ)) (h : Hit)
      → ((k : ℕ) → line_at rest k ≡ line_at lines (i + k))
      → ((name m : String) (declared : ℕ)
          → In (name, (m, declared)) registers
          → IsRegistered lines name m declared)
      → In h (hits_from i rest registers)
      → Reported h
  unfolding hits_from
  hits_from-Reported i [] registers h from all k = elim k [ ]
  hits_from-Reported i (line ∷ rest) registers h from all k =
      elim (In-split h _ (hits_from (suc i) rest registers) k) [
        | inl m ↦
            line-Reported i line registers h
              (sym (from 0 ∙ ap (λ n. line_at lines n) (omega arith))) all (is_loop line)
              (is_safe line) refl refl m
        | inr m ↦
            hits_from-Reported (suc i) rest registers h
              (λ k. from (suc k) ∙ ap (λ n. line_at lines n) (omega arith)) all m
      ]

-- Every report of `scan` is true of the file: its name is registered in the line that it gives, after the
-- line of a module that --check skips, with no other such module and no register between the two and
-- no `check_mode: false` in the lines around them, and the line that it reports loops over a field of
-- that name without a default.
pub scan_explained :
    (lines : List String) (h : Hit)
    → In h (scan lines)
    → IsRegistered lines h.name h.module_name h.declared × IsLoopOver lines h.name h.line_no
unfolding scan
scan_explained lines h k =
    let empty : Seen = record { pending = none; registers = [] } in
    hits_from-Reported lines 0 lines (Seen.registers (see lines 0 lines empty)) h
      (λ n. ap (λ n. line_at lines n) (omega arith))
      (Sound.all_registered (
        (see-Sound lines 0 lines empty (λ n. ap (λ n. line_at lines n) (omega arith))
          (record {
            pending_line = λ m f p. absurd (cc);
            pending_is_before = λ m f p. absurd (cc);
            all_registered = λ n m j x. elim x [ ];
          })).1))
      k
