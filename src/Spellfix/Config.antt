-- ===== src/Spellfix/Config.antt =====
-- The cost tables of editdist3: EditDist3Cost, EditDist3Lang and EditDist3Config, their merge sort,
-- and how they are loaded and found.
pub mod Sort
pub mod Slots
pub mod Load
mod Examples
use letarette.Base.{
  ℕ, zero, suc, ◌+◌, ◌-◌, ◌*◌, ◌/◌, ◌%◌, ◌^◌, ◌≤◌, ◌<◌, bit_and, bit_or, ◌≡◌, refl, sym, ap, ◌∙◌,
  ◌≢◌, ◌↔◌, ◌⊎◌, inl, inr, Bool, true, false, ◌&&◌, ◌||◌, not, Option, none, some, List, [], ◌∷◌,
  ◌++◌, append_assoc, append-nil, arith, ltb, leb, ◌==◌, ==_iff, if◌then◌else◌, Bool-cases,
  Option-cases, length, get_elem?, get_or, drop-length_append, take, drop, length-append, All,
  IsByte, ℤ, pos, negsuc, pos_part, neg_part, ltb_ℤ, eqb_ℤ, eqb_ℤ→eq, to_int32,
}
use Prim.Native.Nat.{compare, Ordering}
use letarette.Sqlite.{Rc, ok, no_mem, is_ok}

-- The first nFrom bytes of `a` are the FROM string, and the nTo bytes behind them are the TO string.
pub record Cost : Type 0 where
  pub from : List ℕ
  pub to : List ℕ
  pub i_cost : ℕ

pub record Lang : Type 0 where
  pub i_lang : ℤ
  pub i_ins_cost : ℕ
  pub i_del_cost : ℕ
  pub i_sub_cost : ℕ
  pub costs : List Cost

-- editDist3Lang
abbrev pub default_lang : Lang
default_lang = record {
  i_lang = pos 0;
  i_ins_cost = 100;
  i_del_cost = 100;
  i_sub_cost = 150;
  costs = [];
}

-- strncmp over as many bytes as both strings have.
unfoldable pub compare_bytes : List ℕ → List ℕ → Ordering
compare_bytes (c ∷ a) (d ∷ b) =
    let rest = compare_bytes a b in
    if c == d then (if c == 0 then Ordering.eq else rest) else compare c d
compare_bytes [] b = Ordering.eq
compare_bytes (c ∷ a) [] = Ordering.eq

pub cost_compare : Cost → Cost → Ordering
unfolding compare_bytes
cost_compare p q = elim (compare_bytes p.from q.from) [
  | Ordering.lt ↦ Ordering.lt
  | Ordering.eq ↦ compare (length p.from) (length q.from)
  | Ordering.gt ↦ Ordering.gt
]

-- `editDist3CostCompare(pA,pB)<=0`
pub cost_le : Cost → Cost → Bool
unfolding cost_compare
cost_le p q = elim (cost_compare p q) [ Ordering.gt ↦ false | _ ↦ true ]

pub cost_merge : List Cost → List Cost → List Cost
unfolding cost_le
cost_merge [] qs = qs
cost_merge (p ∷ ps) [] = p ∷ ps
cost_merge (p ∷ ps) (q ∷ qs) =
    let left = cost_merge ps (q ∷ qs) in
    let right = cost_merge (p ∷ ps) qs in if cost_le p q then p ∷ left else q ∷ right

-- The loop over `ap`, where `slots` is ap[0..mx]; what follows it is null.
pub add_slot : List Cost → List (List Cost) → List (List Cost)
unfolding cost_merge
add_slot p [] = p ∷ []
add_slot p ([] ∷ slots) = p ∷ slots
add_slot p ((c ∷ slot) ∷ slots) = [] ∷ add_slot (cost_merge (c ∷ slot) p) slots

pub fill_slots : List Cost → List (List Cost) → List (List Cost)
unfolding add_slot
fill_slots [] slots = slots
fill_slots (c ∷ list) slots = fill_slots list (add_slot (c ∷ []) slots)

pub merge_slots : List Cost → List (List Cost) → List Cost
unfolding cost_merge
merge_slots p [] = p
merge_slots p ([] ∷ slots) = merge_slots p slots
merge_slots p ((c ∷ slot) ∷ slots) = merge_slots (cost_merge p (c ∷ slot)) slots

pub cost_sort : List Cost → List Cost
unfolding fill_slots merge_slots
cost_sort list = merge_slots [] (fill_slots list ([] ∷ []))

-- A row of the table: its columns, a NULL text having no bytes, and what the allocator answers to
-- the two requests that are made for it.
pub record CostRow : Type 0 where
  pub i_lang : ℤ
  pub from : List ℕ
  pub to : List ℕ
  pub i_cost : ℤ
  pub realloc : Bool
  pub malloc : Bool

pub is_usable : CostRow → Bool
is_usable r =
    leb (length r.from) 100
    && leb (length r.to) 100
    && not (ltb_ℤ r.i_cost (pos 0))
    && ltb_ℤ r.i_cost (pos 10000)

-- "?" alone stands for any character.
abbrev pub is_any : List ℕ → Bool
is_any z = length z == 1 && get_or z 0 0 == b'?'

abbrev is_none : List ℕ → Bool
is_none z = length z == 0

-- The row is put into the entry of its language; `none` says that there is no memory.
pub put_cost : CostRow → Lang → Option Lang
put_cost r lang =
    let cost = pos_part r.i_cost in
    if is_any r.from && is_none r.to
    then some (record lang { i_del_cost = cost })
    else if is_none r.from && is_any r.to
    then some (record lang { i_ins_cost = cost })
    else if is_any r.from && is_any r.to
    then some (record lang { i_sub_cost = cost })
    else if r.malloc
    then some
        (record lang { costs = record { from = r.from; to = r.to; i_cost = cost } ∷ lang.costs })
    else none

-- The entries with that of the row's language in front; `none` says that there is no memory.
pub open_lang : CostRow → List Lang → Option (Lang × List Lang)
open_lang r [] = if r.realloc then some (record default_lang { i_lang = r.i_lang }, []) else none
open_lang r (lang ∷ langs) =
    if eqb_ℤ r.i_lang lang.i_lang
    then some (lang, langs)
    else if r.realloc
    then some (record default_lang { i_lang = r.i_lang }, lang ∷ langs)
    else none

-- The loop over the rows; the entry that was made last stands first.
pub load_rows : List CostRow → List Lang → Rc × List Lang
unfolding is_usable put_cost open_lang
load_rows [] langs = (ok, langs)
load_rows (r ∷ rows) langs =
    let skipped = load_rows rows langs in
    if is_usable r
    then elim (open_lang r langs) [
      | none ↦ (no_mem, langs)
      | some (lang, others) ↦ elim (put_cost r lang) [
        | none ↦ (no_mem, lang ∷ others)
        | some lang' ↦ load_rows rows (lang' ∷ others)
      ]
    ]
    else skipped

-- What SQLite and the allocator answer while a table is loaded, and the rows that it gives.
pub record Table : Type 0 where
  pub mprintf : Bool
  pub prepare : Rc
  pub rows : List CostRow
  pub finalize : Rc

pub sort_langs : List Lang → List Lang
unfolding cost_sort
sort_langs [] = []
sort_langs (lang ∷ langs) = record lang { costs = cost_sort lang.costs } ∷ sort_langs langs

-- The entries in the order in which they were made.
pub in_order : List Lang → List Lang → List Lang
in_order [] out = out
in_order (lang ∷ langs) out = in_order langs (lang ∷ out)

-- What follows the loop; the lists are sorted only where all went well.
pub finish_load : Rc → Rc × List Lang → Rc × List Lang
unfolding sort_langs in_order
finish_load finalize (rc, langs) =
    let rc' = if is_ok rc then finalize else rc in
    if is_ok rc' then (rc', sort_langs (in_order langs [])) else (rc', in_order langs [])

-- The configuration before and after; it is left alone where the statement cannot be prepared.
unfoldable pub config_load : Table → List Lang → Rc × List Lang
unfolding load_rows finish_load
config_load table config =
    if not table.mprintf
    then (no_mem, config)
    else if not (is_ok table.prepare)
    then (table.prepare, config)
    else finish_load table.finalize (load_rows table.rows [])

unfoldable pub find_lang : List Lang → ℤ → Lang
find_lang [] i_lang = default_lang
find_lang (lang ∷ config) i_lang =
    if eqb_ℤ lang.i_lang i_lang then lang else find_lang config i_lang
