-- ===== src/Spellfix/Config/Load.antt =====
-- What the rest of editdist3 relies on in a configuration: costs are small, and lists are sorted.
use letarette.Base.{
  ◌≤◌, ◌<◌, ◌≡◌, ◌≢◌, inl, inr, true, false, not, some, List, [], ◌∷◌, arith, if◌then◌else◌,
  Bool-cases, Option-cases, length, All, ℤ, eqb_ℤ,
}
use letarette.Sqlite.{Rc, ok, is_ok}
use letarette.Spellfix.Config.{
  Cost, Lang, cost_le, cost_merge, add_slot, fill_slots, merge_slots, cost_sort, CostRow, is_usable,
  put_cost, open_lang, load_rows, Table, sort_langs, in_order, finish_load, config_load, find_lang,
}
use letarette.Spellfix.Config.Sort.{IsSorted, cost_sort-IsSorted}

-- The lengths fit a byte, the cost fits 16 bits, and updateCost may add it.
abbrev pub IsFit : Cost → Type 0
IsFit c = (length c.from ≤ 100) × (length c.to ≤ 100) × (c.i_cost < 10000)

pub record IsLoaded (lang : Lang) : Type 0 where
  pub ins : lang.i_ins_cost < 10000
  pub del : lang.i_del_cost < 10000
  pub sub : lang.i_sub_cost < 10000
  pub fits : All IsFit lang.costs

put_cost-IsLoaded :
    (r : CostRow) (lang lang' : Lang)
    → is_usable r ≡ true
    → IsLoaded lang
    → put_cost r lang ≡ some lang'
    → IsLoaded lang'
unfolding is_usable put_cost
put_cost-IsLoaded r lang lang' u h e = ground arith

open_lang-IsLoaded :
    (r : CostRow) (langs : List Lang) (lang : Lang) (others : List Lang)
    → All IsLoaded langs
    → open_lang r langs ≡ some (lang, others)
    → IsLoaded lang × All IsLoaded others
unfolding open_lang
open_lang-IsLoaded r [] lang others h e = ground arith
open_lang-IsLoaded r (first ∷ langs) lang others (loaded, h) e = ground arith

load_rows-IsLoaded :
    (rows : List CostRow) (langs : List Lang)
    → All IsLoaded langs
    → All IsLoaded (load_rows rows langs).1
unfolding load_rows
load_rows-IsLoaded [] langs h = h
load_rows-IsLoaded (r ∷ rows) langs h = elim (Bool-cases (is_usable r)) [
  | inr passed ↦ rw (passed, load_rows) (load_rows-IsLoaded rows langs h)
  | inl used ↦ elim (Option-cases (open_lang r langs)) [
    | inl no_memory ↦ rw (used, no_memory, load_rows) h
    | inr ((lang, others), opened) ↦
        let (loaded, rest) = open_lang-IsLoaded r langs lang others h opened in
        elim (Option-cases (put_cost r lang)) [
          | inl no_memory ↦ rw (used, opened, no_memory, load_rows) (loaded, rest)
          | inr (lang', written) ↦
              rw (used, opened, written, load_rows)
                (load_rows-IsLoaded rows (lang' ∷ others)
                  (put_cost-IsLoaded r lang lang' used loaded written, rest))
        ]
  ]
]

cost_merge-IsFit : (ps qs : List Cost) → All IsFit ps → All IsFit qs → All IsFit (cost_merge ps qs)
unfolding cost_merge
cost_merge-IsFit [] qs h k = k
cost_merge-IsFit (p ∷ ps) [] h k = h
cost_merge-IsFit (p ∷ ps) (q ∷ qs) (hp, h) (kq, k) =
    let left = cost_merge-IsFit ps (q ∷ qs) h (kq, k) in
    let right = cost_merge-IsFit (p ∷ ps) qs (hp, h) k in
    elim (Bool-cases (cost_le p q)) [
      | inl first ↦ rw (first, cost_merge) (hp, left)
      | inr second ↦ rw (second, cost_merge) (kq, right)
    ]

add_slot-IsFit :
    (p : List Cost) (slots : List (List Cost))
    → All IsFit p
    → All (All IsFit) slots
    → All (All IsFit) (add_slot p slots)
unfolding add_slot
add_slot-IsFit p [] h k = (h, tt)
add_slot-IsFit p ([] ∷ slots) h (_, k) = (h, k)
add_slot-IsFit p ((c ∷ slot) ∷ slots) h (fit, k) =
    (tt, add_slot-IsFit (cost_merge (c ∷ slot) p) slots (cost_merge-IsFit (c ∷ slot) p fit h) k)

fill_slots-IsFit :
    (list : List Cost) (slots : List (List Cost))
    → All IsFit list
    → All (All IsFit) slots
    → All (All IsFit) (fill_slots list slots)
unfolding fill_slots
fill_slots-IsFit [] slots h k = k
fill_slots-IsFit (c ∷ list) slots (fit, h) k =
    fill_slots-IsFit list (add_slot (c ∷ []) slots) h (add_slot-IsFit (c ∷ []) slots (fit, tt) k)

merge_slots-IsFit :
    (p : List Cost) (slots : List (List Cost))
    → All IsFit p
    → All (All IsFit) slots
    → All IsFit (merge_slots p slots)
unfolding merge_slots
merge_slots-IsFit p [] h k = h
merge_slots-IsFit p ([] ∷ slots) h (_, k) = merge_slots-IsFit p slots h k
merge_slots-IsFit p ((c ∷ slot) ∷ slots) h (fit, k) =
    merge_slots-IsFit (cost_merge p (c ∷ slot)) slots (cost_merge-IsFit p (c ∷ slot) h fit) k

cost_sort-IsFit : (list : List Cost) → All IsFit list → All IsFit (cost_sort list)
unfolding cost_sort
cost_sort-IsFit list h =
    merge_slots-IsFit [] (fill_slots list ([] ∷ [])) tt (fill_slots-IsFit list ([] ∷ []) h (tt, tt))

in_order-IsLoaded :
    (langs out : List Lang)
    → All IsLoaded langs
    → All IsLoaded out
    → All IsLoaded (in_order langs out)
unfolding in_order
in_order-IsLoaded [] out h k = k
in_order-IsLoaded (lang ∷ langs) out (loaded, h) k =
    in_order-IsLoaded langs (lang ∷ out) h (loaded, k)

abbrev pub HasSorted : Lang → Type 0
HasSorted lang = IsSorted lang.costs

sort_langs-IsLoaded :
    (langs : List Lang)
    → All IsLoaded langs
    → All IsLoaded (sort_langs langs) × All HasSorted (sort_langs langs)
unfolding sort_langs
sort_langs-IsLoaded [] h = (tt, tt)
sort_langs-IsLoaded (lang ∷ langs) (loaded, h) =
    let (rest, sorted) = sort_langs-IsLoaded langs h in
    (
      (
        record {
          ins = loaded.ins;
          del = loaded.del;
          sub = loaded.sub;
          fits = cost_sort-IsFit lang.costs loaded.fits;
        },
        rest,
      ),
      ((cost_sort-IsSorted lang.costs).0, sorted),
    )

is_ok-ne : (rc : Rc) → is_ok rc ≡ false → rc ≢ ok
is_ok-ne ok h e = cc
is_ok-ne rc h e = cc

finish_load-IsLoaded :
    (finalize rc : Rc) (langs : List Lang)
    → All IsLoaded langs
    → All IsLoaded (finish_load finalize (rc, langs)).1
      × ((finish_load finalize (rc, langs)).0 ≡ ok
          → All HasSorted (finish_load finalize (rc, langs)).1)
unfolding finish_load
finish_load-IsLoaded finalize rc langs h =
    let ordered = in_order-IsLoaded langs [] h tt in
    elim (Bool-cases (is_ok (if is_ok rc then finalize else rc))) [
      | inl well ↦
          let (loaded, sorted) = sort_langs-IsLoaded (in_order langs []) ordered in
          rw (well, finish_load) (loaded, λ e. sorted)
      | inr failed ↦ rw (failed, finish_load) (ordered, λ e. absurd (is_ok-ne _ failed e))
    ]

find_lang-IsLoaded :
    (config : List Lang) (i_lang : ℤ) → All IsLoaded config → IsLoaded (find_lang config i_lang)
unfolding find_lang
find_lang-IsLoaded [] i_lang h = ground arith
find_lang-IsLoaded (lang ∷ config) i_lang (loaded, h) =
    let rest = find_lang-IsLoaded config i_lang h in
    elim (Bool-cases (eqb_ℤ lang.i_lang i_lang)) [
      | inl here ↦ rw (here, find_lang) loaded
      | inr there ↦ rw (there, find_lang) rest
    ]

-- Whatever the table holds and whatever fails, every cost in the configuration, and in the entry that
-- is found for any language, is less than 10000 and every string has 100 bytes at most; and after
-- SQLITE_OK the costs of each language are sorted.
pub config_load-IsLoaded :
    (table : Table) (config : List Lang) (i_lang : ℤ)
    → All IsLoaded config
    → All IsLoaded (config_load table config).1
      × IsLoaded (find_lang (config_load table config).1 i_lang)
      × ((config_load table config).0 ≡ ok → All HasSorted (config_load table config).1)
unfolding config_load
config_load-IsLoaded table config i_lang h = elim (Bool-cases (not table.mprintf)) [
  | inl no_memory ↦ rw no_memory (h, find_lang-IsLoaded config i_lang h, λ e. cc)
  | inr written ↦ elim (Bool-cases (not (is_ok table.prepare))) [
    | inl failed ↦
        rw (written, failed)
          (
            h,
            find_lang-IsLoaded config i_lang h,
            λ e. absurd (is_ok-ne table.prepare (ground arith) e),
          )
    | inr prepared ↦
        let rows = load_rows table.rows [] in
        let (loaded, sorted) =
          finish_load-IsLoaded table.finalize rows.0 rows.1 (load_rows-IsLoaded table.rows [] tt) in
        rw (written, prepared) (loaded, find_lang-IsLoaded _ i_lang loaded, sorted)
  ]
]
