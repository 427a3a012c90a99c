-- ===== src/Tests/Naming.antt =====
-- A batch of names.
use openrep.Prelude.{some, ℕ}
use openrep.Names.Words.Batch.{generate_name_batch-Batched, Batched}
use openrep.Names.Words.{generate_name_batch, FourBytes}

abbrev draws : ℕ → FourBytes
draws t = record { first = t; second = 7; third = 0; fourth = 200 }

generate_name_batch-Batched_example : Batched 3 (generate_name_batch draws 0 (some 3))
generate_name_batch-Batched_example = generate_name_batch-Batched draws 0 3
