-- ===== src/Tests/Index.antt =====
-- An association list with distinct keys as the `IndexMap` of the mempool.
use mathlib.Core.List.{lookup}
use better_call_chain.Prelude.{
  suc, ◌≡◌, refl, ap, List, [], ◌∷◌, map, none, some, arith, All, All-map, length, length-map,
}
use better_call_chain.Prelude.Maps.{
  DistinctKeys, DistinctKeys-remove, DistinctKeys-insert, insert, remove, lookup-insert,
  lookup-remove, lookup_entries,
}
use better_call_chain.Core.Types.{TxHash, Transaction, bytes_discrete}
use better_call_chain.Node.IndexMap.{IndexMap}

abbrev pub Entries : Type 0
Entries = List (TxHash × Transaction)

remove-absent :
    (k : TxHash) (m : Entries) → lookup bytes_discrete k m ≡ none → remove bytes_discrete k m ≡ m
unfolding lookup remove
remove-absent k [] e = refl
remove-absent k (f ∷ m) e = ground (arith, e, remove-absent k m)

pub length-remove :
    (k : TxHash) (v : Transaction) (m : Entries)
    → DistinctKeys bytes_discrete m
    → lookup bytes_discrete k m ≡ some v
    → suc (length (remove bytes_discrete k m)) ≡ length m
unfolding lookup remove
length-remove k v [] d e = absurd (cc)
length-remove k v ((j, w) ∷ m) d e =
    ground (arith, e, d.0, length-remove k v m d.1, remove-absent k m)

abbrev pub no_entries : Entries
no_entries = []

pub lookup_nil : (k : TxHash) → lookup bytes_discrete k no_entries ≡ none
unfolding lookup
lookup_nil k = refl

pub length-insert :
    (k : TxHash) (v : Transaction) (m : Entries)
    → lookup bytes_discrete k m ≡ none
    → length (insert bytes_discrete k v m) ≡ suc (length m)
unfolding insert
length-insert k v m e = ap (λ l. suc (length l)) (remove-absent k m e)

pub All-values :
    (P : Transaction → Type 0) (m : Entries)
    → All (λ e. P e.1) m
    → All P (map (λ (e : TxHash × Transaction). e.1) m)
All-values P [] h = tt
All-values P (e ∷ m) h = (h.0, All-values P m h.1)

abbrev pub entries : IndexMap
entries = record {
  Map = (m : Entries) × DistinctKeys bytes_discrete m;
  new = ([], tt);
  get = λ k m. lookup bytes_discrete k m.0;
  insert = λ k v m. (insert bytes_discrete k v m.0, DistinctKeys-insert bytes_discrete k v m.0 m.1);
  swap_remove = λ k m. (remove bytes_discrete k m.0, DistinctKeys-remove bytes_discrete k m.0 m.1);
  len = λ m. length m.0;
  values = λ m. map (λ (e : TxHash × Transaction). e.1) m.0;
  get-new = λ k. lookup_nil k;
  get-insert = λ j k v m. lookup-insert bytes_discrete j k v m.0;
  get-swap_remove = λ j k m. lookup-remove bytes_discrete j k m.0;
  len-new = refl;
  len-insert = λ k v m e. length-insert k v m.0 e;
  len-swap_remove = λ k v m e. length-remove k v m.0 m.1 e;
  length-values = λ m. length-map (λ (e : TxHash × Transaction). e.1) m.0;
  values_stored = λ m.
      All-values (λ tx. (k : TxHash) × (lookup bytes_discrete k m.0 ≡ some tx)) m.0
        (All-map (λ e h. (e.0, h)) m.0 (lookup_entries bytes_discrete m.0 m.1));
}
