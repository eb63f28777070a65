-- ===== src/Ahci/Chain.antt =====
-- The list of linear addresses as a list of entries.
use os_v.Base.{
  ℕ, zero, suc, ◌+◌, ◌^◌, ◌≤◌, ◌<◌, ◌≡◌, refl, ◌⊎◌, some, List, [], ◌∷◌, ◌++◌, arith, ne→==, length,
  ◌∙◌,
}
use os_v.Memory.{Mem, read64, write64}
use os_v.Memory.Laws.{read_bytes-write_bytes_other, read64-write64}
use os_v.Ahci.{last_entry, ahci_append_to_lin_address_list}

-- From `e` on the `next` fields in memory link the entries.
abbrev pub Links : Mem → ℕ → List ℕ → Type 0
Links m e [] = e ≡ 0
Links m e (p ∷ ps) = (e ≡ p) × (0 < p) × Links m (read64 p m) ps

-- The `next` field of an entry is apart from those of others.
abbrev pub ApartFrom : ℕ → List ℕ → Type 0
ApartFrom p [] = Unit {0}
ApartFrom p (q ∷ qs) = ((p + 8 ≤ q) ⊎ (q + 8 ≤ p)) × ApartFrom p qs

abbrev pub AllApart : List ℕ → Type 0
AllApart [] = Unit {0}
AllApart (p ∷ ps) = ApartFrom p ps × AllApart ps

abbrev last_of : ℕ → List ℕ → ℕ
last_of p [] = p
last_of p (q ∷ qs) = last_of q qs

last_entry-found :
    (ps : List ℕ) (fuel p : ℕ) (m : Mem)
    → Links m p (p ∷ ps)
    → length ps < fuel
    → last_entry fuel p m ≡ some (last_of p ps)
unfolding last_entry
last_entry-found ps zero p m h enough = absurd (omega arith)
last_entry-found [] (suc fuel) p m h enough = rw h.2 refl
last_entry-found (q ∷ ps) (suc fuel) p m h enough =
    let next = h.2.0 in
    let pos = h.2.1 in
    let rest : Links m q (q ∷ ps) = (refl, pos, h.2.2) in
    rw (ne→== (read64 p m) 0 (λ is. omega (arith, is, next, pos))) rw next
      (last_entry-found ps fuel q m rest (omega arith))

ApartFrom-last :
    (p q : ℕ) (qs : List ℕ) → ApartFrom p (q ∷ qs) → (p + 8 ≤ last_of q qs) ⊎ (last_of q qs + 8 ≤ p)
ApartFrom-last p q [] h = h.0
ApartFrom-last p q (r ∷ qs) h = ApartFrom-last p r qs h.1

-- The list with the entry linked behind its last.
Links-append :
    (ps : List ℕ) (p entry : ℕ) (m : Mem)
    → Links m p (p ∷ ps)
    → AllApart (p ∷ ps)
    → ApartFrom entry (p ∷ ps)
    → 0 < entry
    → entry < 2 ^ 64
    → read64 entry m ≡ 0
    → Links (write64 (last_of p ps) entry m) p (p ∷ ps ++ entry ∷ [])
Links-append [] p entry m h apart fresh pos word end = (
  refl,
  h.1,
  (
    read64-write64 p entry m word,
    pos,
    read_bytes-write_bytes_other 8 entry 8 p entry m fresh.0 ∙ end,
  ),
)
Links-append (q ∷ ps) p entry m h apart fresh pos word end =
    let rest : Links m q (q ∷ ps) = (refl, h.2.1, h.2.2) in
    let ih = Links-append ps q entry m rest apart.1 fresh.1 pos word end in
    let kept =
      read_bytes-write_bytes_other 8 p 8 (last_of q ps) entry m (ApartFrom-last p q ps apart.0) in
    (refl, h.1, (kept ∙ h.2.0, ih.1, ih.2))

-- `ahci_append_to_lin_address_list` of a new entry, whose `next` is 0 and apart from those in the list,
-- returns, with fuel for the entries of the list, and the list is the old one with the entry at its end.
pub ahci_append_to_lin_address_list-Links :
    (ps : List ℕ) (fuel e entry : ℕ) (m : Mem)
    → Links m e ps
    → AllApart ps
    → ApartFrom entry ps
    → 0 < entry
    → entry < 2 ^ 64
    → read64 entry m ≡ 0
    → length ps ≤ fuel
    → (e' : ℕ) × (m' : Mem) × (ahci_append_to_lin_address_list fuel e entry m ≡ some (e', m'))
      × Links m' e' (ps ++ entry ∷ [])
unfolding ahci_append_to_lin_address_list
ahci_append_to_lin_address_list-Links [] fuel e entry m h apart fresh pos word end enough =
    (entry, m, rw h refl, (refl, pos, end))
ahci_append_to_lin_address_list-Links (p ∷ ps) fuel e entry m h apart fresh pos word end enough =
    let at = h.0 in
    let above = h.1 in
    let here : Links m p (p ∷ ps) = (refl, above, h.2) in
    let found = last_entry-found ps fuel p m here (omega arith) in
    (
      p,
      write64 (last_of p ps) entry m,
      rw at rw (ne→== p 0 (λ is. omega (arith, is, above))) rw found rw at refl,
      Links-append ps p entry m here apart fresh pos word end,
    )
