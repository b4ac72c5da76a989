-- ===== src/Authz/Cache/Laws.antt =====
-- libs/holon_common/authz.py: the operations of the decision cache, on what is stored and how much.
use holon.Prelude.{
  ℕ, ◌+◌, ◌≤◌, ◌≡◌, false, some, [], ◌∷◌, length, All, All-append, length-append, arith,
  Option-cases, inl, inr,
}
use holon.Authz.Cache.{Decision, Key, DecisionCache, get, pop, put, move_to_end, evict}

-- Every entry is a denial.
abbrev pub AllDenied : DecisionCache → Type 0
AllDenied = All (λ e. e.1.allowed ≡ false)

pub get-AllDenied :
    (k : Key) (c : DecisionCache) (d : Decision) (at : ℕ)
    → AllDenied c
    → get k c ≡ some (d, at)
    → d.allowed ≡ false
unfolding get
get-AllDenied k [] d at h e = absurd (cc)
get-AllDenied k ((j, x, t) ∷ c) d at h e = ground (arith, get-AllDenied k c d at h.1)

pub pop-AllDenied : (k : Key) (c : DecisionCache) → AllDenied c → AllDenied (pop k c)
unfolding pop
pop-AllDenied k [] h = tt
pop-AllDenied k ((j, d, at) ∷ c) h = ground (arith, pop-AllDenied k c h.1)

pub put-AllDenied :
    (k : Key) (d : Decision) (at : ℕ) (c : DecisionCache)
    → d.allowed ≡ false
    → AllDenied c
    → AllDenied (put k d at c)
unfolding put
put-AllDenied k d at [] denied h = (denied, tt)
put-AllDenied k d at ((j, e, old) ∷ c) denied h = ground (arith, put-AllDenied k d at c denied h.1)

pub move_to_end-AllDenied :
    (k : Key) (c : DecisionCache) → AllDenied c → AllDenied (move_to_end k c)
unfolding move_to_end
move_to_end-AllDenied k c h = elim (Option-cases (get k c)) [
  | inl absent ↦ rw (absent, move_to_end) h
  | inr ((d, at), e) ↦
      rw (e, move_to_end)
        (All-append (λ x. x.1.allowed ≡ false) (pop k c) ((k, d, at) ∷ []) (pop-AllDenied k c h)
          (get-AllDenied k c d at h e, tt))
]

pub evict-AllDenied : (max : ℕ) (c : DecisionCache) → AllDenied c → AllDenied (evict max c)
unfolding evict
evict-AllDenied max [] h = tt
evict-AllDenied max (e ∷ c) h = ground (arith, evict-AllDenied max c h.1)

pub length-evict : (max : ℕ) (c : DecisionCache) → length (evict max c) ≤ max
unfolding evict
length-evict max [] = omega arith
length-evict max (e ∷ c) = ground (arith, length-evict max c)

pub length-pop-le : (k : Key) (c : DecisionCache) → length (pop k c) ≤ length c
unfolding pop
length-pop-le k [] = omega arith
length-pop-le k ((j, d, at) ∷ c) = ground (arith, length-pop-le k c)

length-pop :
    (k : Key) (c : DecisionCache) (v : Decision × ℕ)
    → get k c ≡ some v
    → length (pop k c) + 1 ≡ length c
unfolding get pop
length-pop k [] v e = absurd (cc)
length-pop k ((j, d, at) ∷ c) v e = ground (arith, length-pop k c v)

pub length-move_to_end : (k : Key) (c : DecisionCache) → length (move_to_end k c) ≡ length c
unfolding move_to_end
length-move_to_end k c = elim (Option-cases (get k c)) [
  | inl absent ↦ rw (absent, move_to_end)
  | inr ((d, at), e) ↦
      rw (e, move_to_end)
        (omega (arith, length-append {0} (pop k c) ((k, d, at) ∷ []), length-pop k c (d, at) e))
]
