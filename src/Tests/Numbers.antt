-- ===== src/Tests/Numbers.antt =====
-- Runs of the arithmetic: alignment and the three schemes of element sizes.
use smmalloc.Prelude.{◌+◌, ◌%◌, ◌^◌, ◌≤◌, ◌<◌, ◌≡◌, arith, some, get_elem?}
use smmalloc.Align.{align, align_up}
use smmalloc.Sizes.Piecewise
use smmalloc.Sizes.Linear
use smmalloc.Sizes.Float
use smmalloc.Sizes.Float.Scheme
use smmalloc.Sizes.Tables.{linear_table, piecewise_table, float_table, tables_lem}

align_up_example :
    (100 ≤ align 100 (2 ^ 5)) × (align 100 (2 ^ 5) < 100 + 2 ^ 5) × (align 100 (2 ^ 5) % 2 ^ 5 ≡ 0)
align_up_example = align_up 5 100 (omega arith) (omega arith)

covers_example : 300 ≤ Piecewise.size_by_index (Piecewise.index_by_size 300)
covers_example = Piecewise.covers 300 (omega arith) (omega arith)

piecewise_below : 8 < Piecewise.index_by_size 300
unfolding Piecewise.index_by_size
piecewise_below = omega arith

tight_example : Piecewise.size_by_index 8 < 300
tight_example = Piecewise.tight 300 (omega arith) (omega arith) 8 piecewise_below

float_covers_example : 300 ≤ Float.size_by_index (Float.index_by_size 300)
float_covers_example = Scheme.float_covers 300 (omega arith) (omega arith)

float_below : 16 < Float.index_by_size 300
unfolding Float.index_by_size Float.uint_to_float_round_up Float.leading_zeros
float_below = omega arith

float_tight_example : Float.size_by_index 16 < 300
float_tight_example = Scheme.float_tight 300 16 (omega arith) float_below

tables_lem_example :
    (get_elem? linear_table 40 ≡ some (Linear.size_by_index 40))
    × (get_elem? piecewise_table 40 ≡ some (Piecewise.size_by_index 40))
    × (get_elem? float_table 40 ≡ some (Float.size_by_index 40))
tables_lem_example = tables_lem 40 (omega arith)
