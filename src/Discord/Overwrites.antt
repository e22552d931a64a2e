-- ===== src/Discord/Overwrites.antt =====
-- roles/discord_guild/_archive/discord_reconcile.py: the comparison of permission overwrites.
use ansible_platform.Prelude.{
  ◌≡◌, ◌↔◌, ◌⊎◌, inl, inr, subst, refl, Bool, true, false, ◌||◌, List, [], ◌∷◌, any, In, here,
  there, ==_refl, ==_sound, arith,
}
use ansible_platform.Discord.{Overwrite, same_overwrite, subset, ow_equal}

overwrite_ext : (o p : Overwrite) → o.id ≡ p.id → o.allow ≡ p.allow → o.deny ≡ p.deny → o ≡ p
overwrite_ext o p h k l = λ i. record { id = h i; allow = k i; deny = l i }

same_overwrite_sound : (o p : Overwrite) → same_overwrite o p ≡ true → o ≡ p
same_overwrite_sound o p h =
    overwrite_ext o p (==_sound o.id p.id (ground (arith, h))) (ground (arith, h))
      (ground (arith, h))

same_overwrite_refl : (o : Overwrite) → same_overwrite o o ≡ true
same_overwrite_refl o = ground (arith, ==_refl o.id)

||-cases : (b c : Bool) → (b || c) ≡ true → (b ≡ true) ⊎ (c ≡ true)
||-cases true c h = inl refl
||-cases false c h = inr h

any-In : (o : Overwrite) (ps : List Overwrite) → any (λ p. same_overwrite o p) ps ≡ true → In o ps
any-In o [] h = absurd (cc)
any-In o (p ∷ ps) h = elim (||-cases _ _ h) [
  | inl e ↦ subst (λ q. In o (q ∷ ps)) (same_overwrite_sound o p e) here
  | inr e ↦ there (any-In o ps e)
]

In-any : (o : Overwrite) (ps : List Overwrite) → In o ps → any (λ p. same_overwrite o p) ps ≡ true
In-any o [] h = elim h [ ]
In-any o (_ ∷ ps) here = ground (arith, same_overwrite_refl o)
In-any o (p ∷ ps) (there h) = ground (arith, In-any o ps h)

subset-In : (os ps : List Overwrite) → subset os ps ≡ true → (o : Overwrite) → In o os → In o ps
subset-In [] ps h o m = elim m [ ]
subset-In (o ∷ os) ps h _ here = any-In o ps (ground (arith, h))
subset-In (p ∷ os) ps h o (there m) = subset-In os ps (ground (arith, h)) o m

In-subset : (os ps : List Overwrite) → ((o : Overwrite) → In o os → In o ps) → subset os ps ≡ true
In-subset [] ps h = refl
In-subset (o ∷ os) ps h =
    ground (arith, In-any o ps (h o here), In-subset os ps (λ p m. h p (there m)))

-- `ow_equal` tells exactly whether the two lists have the same overwrites, in any order and any
-- number.
pub ow_equal_exact :
    (current wanted : List Overwrite)
    → (ow_equal current wanted ≡ true) ↔ (
        ((o : Overwrite) → In o current → In o wanted)
        × ((o : Overwrite) → In o wanted → In o current))
unfolding ow_equal
ow_equal_exact current wanted = (
  λ h. (subset-In current wanted (ground (arith, h)), subset-In wanted current (ground (arith, h))),
  λ h. ground (arith, In-subset current wanted h.0, In-subset wanted current h.1),
)
