-- ===== src/Handles/Examples.antt =====
-- Runs of the table of handles, and concrete instances of its theorems.
use shiroikuma_gcfs.Prelude.{ℕ, ◌<◌, ◌≡◌, ◌≢◌, refl, true, none, some, [], ◌∷◌, ok, ◌>>=◌, bytes_of}
use shiroikuma_gcfs.Handles.{File, Table, load, is_used, register_file_handle, close_file}
use shiroikuma_gcfs.Handles.Free.{register_file_handle_lem, close_file-register_file_handle}

abbrev file : ℕ → File
file n = record { fd = n; path = bytes_of "a"; id = none }

-- The numbers 0 and 2 are in use.
abbrev some_table : Table
some_table = (2, file 12) ∷ (0, file 10) ∷ []

register_file_handle_run :
    register_file_handle some_table 11 (bytes_of "a") ≡ ok (1, (1, file 11) ∷ some_table)
unfolding register_file_handle
register_file_handle_run = refl

register_file_handle_example :
    (c : ℕ) × (table' : Table) × (register_file_handle some_table 11 (bytes_of "a")
      ≡ ok (c, table'))
    × (load some_table c ≡ none)
    × ((k : ℕ) → k < c → is_used (load some_table k) ≡ true)
    × (load table' c ≡ some (file 11))
    × ((k : ℕ) → k ≢ c → load table' k ≡ load some_table k)
register_file_handle_example = register_file_handle_lem some_table 11 (bytes_of "a")

close_file-register_file_handle_example :
    (table' : Table) × ((register_file_handle some_table 11 (bytes_of "a") >>= λ r.
    close_file r.1 r.0)
      ≡ ok table')
    × ((k : ℕ) → load table' k ≡ load some_table k)
close_file-register_file_handle_example =
    close_file-register_file_handle some_table 11 (bytes_of "a")
