-- ===== src/Core/Memory/Validators.antt =====
-- `all_active`: every node sees the validators in the same order, and elects the same one.
use mathlib.Core.List.Perm
use mathlib.Core.List.{
  Mem, Mem-prop, Perm, Permᴰ, Nodup, Nodup-cons, mem-cons_self, mem-cons_of_mem,
  eq-or-mem_of_mem-cons, not-mem-nil,
}
use mathlib.Core.Logic.Or
use mathlib.Core.HLevel.{⊥_prop}
use mathlib.Core.Logic.{∥∥₁_elim}
use mathlib.Core.Path.{ap₂}
use better_call_chain.Prelude.{
  ℕ, ◌≡◌, refl, sym, ap, subst, ◌∙◌, ◌≢◌, true, false, not, List, [], ◌∷◌, map, some, ok, err, ite,
  if_pos, if_neg, arith, ◌⊎◌, inl, inr, All,
}
use better_call_chain.Prelude.Maps.{insert, lookup-insert, remove}
use better_call_chain.Core.Types.{Bytes, Address, Validator, backend, address_discrete}
use better_call_chain.Core.Crypto.{Crypto}
use better_call_chain.Core.Address.{from_pubkey_bytes}
use better_call_chain.Core.Memory.{
  MemoryStore, ltb_bytes, eligible, sort_in, sort_by_address, all_active, upsert, get_validator,
}

ltb_bytes_asymm : (a b : Bytes) → a ≢ b → ltb_bytes a b ≡ not (ltb_bytes b a)
unfolding ltb_bytes
ltb_bytes_asymm [] [] ne = absurd (ne refl)
ltb_bytes_asymm [] (y ∷ b) ne = refl
ltb_bytes_asymm (x ∷ a) [] ne = refl
ltb_bytes_asymm (x ∷ a) (y ∷ b) ne = ground (arith, ltb_bytes_asymm a b)

-- From `x <= v` and `x < w` in the order of texts: `v` does not stand between.
ltb_bytes_trans :
    (v x w : Bytes) → ltb_bytes x v ≡ false → ltb_bytes x w ≡ true → ltb_bytes v w ≡ true
unfolding ltb_bytes
ltb_bytes_trans [] [] w h k = k
ltb_bytes_trans [] (x ∷ xs) [] h k = k
ltb_bytes_trans [] (x ∷ xs) (z ∷ w) h k = refl
ltb_bytes_trans (y ∷ v) [] w h k = absurd (cc)
ltb_bytes_trans (y ∷ v) (x ∷ xs) [] h k = absurd (cc)
ltb_bytes_trans (y ∷ v) (x ∷ xs) (z ∷ w) h k = ground (arith, ltb_bytes_trans v xs w)

abbrev text_of : Validator → Bytes
text_of v = v.address.text

sort_in_comm :
    (v w : Validator) (vs : List Validator)
    → text_of v ≢ text_of w
    → sort_in v (sort_in w vs) ≡ sort_in w (sort_in v vs)
unfolding sort_in
sort_in_comm v w [] ne = ground (arith, ltb_bytes_asymm (text_of v) (text_of w) ne)
sort_in_comm v w (x ∷ vs) ne = ground (
  arith,
  sort_in_comm v w vs ne,
  ltb_bytes_asymm (text_of v) (text_of w) ne,
  ltb_bytes_trans (text_of v) (text_of x) (text_of w),
  ltb_bytes_trans (text_of w) (text_of x) (text_of v),
)

abbrev Entry : Type 0
Entry = Address × Validator

-- The text by which an entry is ordered.
abbrev pub entry_text : Entry → Bytes
entry_text e = text_of e.1

abbrev sorted : ℕ → List Entry → List Validator
sorted slot m = sort_by_address (eligible slot m)

sorted_cons :
    (slot : ℕ) (e : Entry) (l m : List Entry)
    → sorted slot l ≡ sorted slot m
    → sorted slot (e ∷ l) ≡ sorted slot (e ∷ m)
unfolding eligible sort_by_address
sorted_cons slot (a, v) l m h = ground (arith, h)

sorted_swap :
    (slot : ℕ) (e f : Entry) (l : List Entry)
    → entry_text e ≢ entry_text f
    → sorted slot (e ∷ f ∷ l) ≡ sorted slot (f ∷ e ∷ l)
unfolding eligible sort_by_address
sorted_swap slot (a, v) (b, w) l ne = ground (arith, sort_in_comm v w (sorted slot l) ne)

head_ne : (x y : Bytes) (l : List Bytes) → Nodup (x ∷ y ∷ l) → x ≢ y
head_ne x y l d e = (Nodup-cons.0 d).0 (subst (λ z. Mem z (y ∷ l)) (sym e) mem-cons_self)

sorted-permᴰ :
    (slot : ℕ) {l m : List Entry}
    → Permᴰ l m
    → Nodup (map entry_text l)
    → sorted slot l ≡ sorted slot m
sorted-permᴰ slot Permᴰ.nil d = refl
sorted-permᴰ slot (Permᴰ.cons {a = e} {b = f} {l₁ = l} {l₂ = m} p q) d =
    sorted_cons slot e l m (sorted-permᴰ slot q (Nodup-cons.0 d).1)
    ∙ ap (λ x. sorted slot (x ∷ m)) p
sorted-permᴰ slot (Permᴰ.swap {a = e} {b = f} {l = l} p q) d =
    sorted_swap slot e f l (head_ne (entry_text e) (entry_text f) (map entry_text l) d)
    ∙ ap₂ (λ x y. sorted slot (x ∷ y ∷ l)) q p
sorted-permᴰ slot (Permᴰ.trans {l₁ = l} {l₂ = k} p q) d =
    sorted-permᴰ slot p d ∙ sorted-permᴰ slot q (Perm.nodup (Perm.map entry_text ∣ p ∣₁) d)

validators_set : IsSet (List Validator)
validators_set = hlevel

-- `all_active` does not depend on the order in which the table of validators is walked, so two nodes
-- with the same validators see them in the same order, when no two have the same address.
pub all_active-perm :
    (s t : MemoryStore) (slot : ℕ)
    → Nodup (map entry_text s.validators)
    → Perm s.validators t.validators
    → all_active s slot ≡ all_active t slot
unfolding all_active
all_active-perm s t slot d p = ap ok (∥∥₁_elim p (validators_set _ _) (λ q. sorted-permᴰ slot q d))

-- An entry of the table: the key is the validator's address, which its public key derives.
abbrev pub IsEntry : Crypto → Entry → Type 0
IsEntry c (a, v) = (a ≡ v.address) × (v.address ≡ from_pubkey_bytes c v.pubkey)

pub record IsRegistry (c : Crypto) (s : MemoryStore) : Type 0 where
  pub entries : All (IsEntry c) s.validators
  pub distinct : Nodup (map entry_text s.validators)

All-remove :
    (c : Crypto) (k : Address) (m : List Entry)
    → All (IsEntry c) m
    → All (IsEntry c) (remove address_discrete k m)
unfolding remove
All-remove c k [] h = tt
All-remove c k ((a, v) ∷ m) h = elim (address_discrete a k) [
  | yes p ↦ rw (if_pos _ p) (All-remove c k m h.1)
  | no p ↦ rw (if_neg _ p) (h.0, All-remove c k m h.1)
]

not-mem-remove :
    (c : Crypto) (k : Address) (m : List Entry)
    → All (IsEntry c) m
    → ¬ Mem k.text (map entry_text (remove address_discrete k m))
unfolding remove
not-mem-remove c k [] h = not-mem-nil
not-mem-remove c k ((a, v) ∷ m) h = elim (address_discrete a k) [
  | yes p ↦ rw (if_pos _ p) (not-mem-remove c k m h.1)
  | no p ↦ rw (if_neg _ p) (λ mem.
      Or.elim ⊥_prop (eq-or-mem_of_mem-cons mem)
        (λ e. p (h.0.0 ∙ ap (λ (t : Bytes). let x : Address = record { text = t } in x) (sym e)))
        (not-mem-remove c k m h.1))
]

mem_of-mem-remove :
    (x : Bytes) (k : Address) (m : List Entry)
    → Mem x (map entry_text (remove address_discrete k m))
    → Mem x (map entry_text m)
unfolding remove
mem_of-mem-remove x k [] h = h
mem_of-mem-remove x k ((a, v) ∷ m) h = elim (address_discrete a k) [
  | yes p ↦ mem-cons_of_mem _ (mem_of-mem-remove x k m (rw (if_pos (address_discrete a k) p) at h))
  | no p ↦
      Or.elim Mem-prop (eq-or-mem_of_mem-cons (rw (if_neg (address_discrete a k) p) at h))
        (λ e. rw e mem-cons_self) (λ r. mem-cons_of_mem _ (mem_of-mem-remove x k m r))
]

Nodup-remove :
    (k : Address) (m : List Entry)
    → Nodup (map entry_text m)
    → Nodup (map entry_text (remove address_discrete k m))
unfolding remove
Nodup-remove k [] d = d
Nodup-remove k ((a, v) ∷ m) d = elim (address_discrete a k) [
  | yes p ↦ rw (if_pos _ p) (Nodup-remove k m (Nodup-cons.0 d).1)
  | no p ↦ rw (if_neg _ p) (
      Nodup-cons.1 (
        λ r. (Nodup-cons.0 d).0 (mem_of-mem-remove (text_of v) k m r),
        Nodup-remove k m (Nodup-cons.0 d).1,
      ))
]

module _ (c : Crypto) (s : MemoryStore) (v : Validator) where
  -- `upsert` refuses a validator whose address its public key does not derive, and else records it
  -- under its address, leaves every other address alone, and keeps the table well formed.
  pub upsert-IsRegistry :
      IsRegistry c s
      → ((v.address ≢ from_pubkey_bytes c v.pubkey) × (upsert c s v ≡ err backend))
        ⊎ ((s' : MemoryStore) × (v.address ≡ from_pubkey_bytes c v.pubkey)
            × (upsert c s v ≡ ok s')
            × IsRegistry c s'
            × ((a : Address)
                → get_validator s' a
                  ≡ ite (address_discrete a v.address) (ok (some v)) (get_validator s a)))
  unfolding upsert get_validator insert
  upsert-IsRegistry r = elim (address_discrete v.address (from_pubkey_bytes c v.pubkey)) [
    | no ne ↦ inl (ne, ground (arith, ne))
    | yes e ↦ inr (
      record s { validators = insert address_discrete v.address v s.validators },
      e,
      ground (arith, e),
      record {
        entries = ((refl, e), All-remove c v.address s.validators r.entries);
        distinct = Nodup-cons.1 (
          not-mem-remove c v.address s.validators r.entries,
          Nodup-remove v.address s.validators r.distinct,
        );
      },
      λ a. ground (arith, lookup-insert address_discrete a v.address v s.validators),
    )
  ]
