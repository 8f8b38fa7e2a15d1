-- ===== src/Docker/Counters/Tests.antt =====
-- src/docker.rs: runs of the functions on counters.
use dockdoe.Prelude.{ℕ, ◌≡◌, refl, none, some, [], ◌∷◌, u64_max, Text, text}
use dockdoe.Docker.Counters.{BlkioEntry, StatsSample, memory, network_totals, blkio_totals}

abbrev entry : Text → ℕ → BlkioEntry
entry op v = record { op = some op; value = some v }

abbrev sample : StatsSample
sample = record {
  cpu_stats = none;
  memory_stats = some (record {
    usage = some 100;
    limit = some 500;
    stats = some ((text "total_inactive_file", 30) ∷ []);
  });
  networks = some (
      record { rx_bytes = some 7; tx_bytes = none }
      ∷ record { rx_bytes = some u64_max; tx_bytes = some 3 }
      ∷ []);
  blkio_stats = some (record {
    io_service_bytes_recursive = some (
        entry (text "Read") 5
        ∷ entry (text "WRITE") 6
        ∷ entry (text "Discard") 9
        ∷ entry (text "read") 1
        ∷ []);
  });
}

memory-sample : memory sample ≡ (some 70, some 500)
unfolding memory
memory-sample = refl

network_totals-sample : network_totals sample ≡ (some u64_max, some 3)
unfolding network_totals
network_totals-sample = refl

blkio_totals-sample : blkio_totals sample ≡ (some 6, some 6)
unfolding blkio_totals
blkio_totals-sample = refl
