-- ===== src/Collector/Counts.antt =====
-- Go/internal/collector/contents.go: the counts of one traversal, and the counters that all the workers
-- share. Counters that the code also decrements are integers; the others only grow.
use share_hound.Prelude.{ℕ, ◌+◌, List, []}
use share_hound.Prelude.Int.{ℤ, pos}
use share_hound.Prelude.Text.{Text}

pub record TraversalCounts : Type 0 where
  pub total_files : ℕ
  pub skipped_files : ℕ
  pub processed_files : ℕ
  pub total_directories : ℕ
  pub skipped_directories : ℕ
  pub processed_directories : ℕ

-- `TraversalCounts{}`
abbrev pub no_counts : TraversalCounts
no_counts = record {
  total_files = 0;
  skipped_files = 0;
  processed_files = 0;
  total_directories = 0;
  skipped_directories = 0;
  processed_directories = 0;
}

-- `c.Add(other)`
unfoldable pub add : TraversalCounts → TraversalCounts → TraversalCounts
add c other = record {
  total_files = c.total_files + other.total_files;
  skipped_files = c.skipped_files + other.skipped_files;
  processed_files = c.processed_files + other.processed_files;
  total_directories = c.total_directories + other.total_directories;
  skipped_directories = c.skipped_directories + other.skipped_directories;
  processed_directories = c.processed_directories + other.processed_directories;
}

pub record WorkerResults : Type 0 where
  pub success : ℕ
  pub errors : ℕ
  pub tasks_total : ℕ
  pub tasks_pending : ℤ
  pub tasks_finished : ℕ
  pub shares_total : ℕ
  pub shares_processed : ℕ
  pub shares_skipped : ℕ
  pub shares_pending : ℤ
  pub files_total : ℕ
  pub files_processed : ℕ
  pub files_skipped : ℕ
  pub files_pending : ℤ
  pub directories_total : ℕ
  pub directories_processed : ℕ
  pub directories_skipped : ℕ
  pub directories_pending : ℤ
  pub active_hosts : ℤ
  pub active_host_names : List Text

-- The zero value.
abbrev pub no_results : WorkerResults
no_results = record {
  success = 0;
  errors = 0;
  tasks_total = 0;
  tasks_pending = pos 0;
  tasks_finished = 0;
  shares_total = 0;
  shares_processed = 0;
  shares_skipped = 0;
  shares_pending = pos 0;
  files_total = 0;
  files_processed = 0;
  files_skipped = 0;
  files_pending = pos 0;
  directories_total = 0;
  directories_processed = 0;
  directories_skipped = 0;
  directories_pending = pos 0;
  active_hosts = pos 0;
  active_host_names = [];
}

-- What the counters gain by the traversal of one directory.
unfoldable pub report : TraversalCounts → WorkerResults → WorkerResults
report c r = record r {
  files_total = r.files_total + c.total_files;
  files_skipped = r.files_skipped + c.skipped_files;
  files_processed = r.files_processed + c.processed_files;
  directories_total = r.directories_total + c.total_directories;
  directories_skipped = r.directories_skipped + c.skipped_directories;
  directories_processed = r.directories_processed + c.processed_directories;
}

-- The counters that a traversal leaves alone, the others set to zero.
abbrev pub other_counters : WorkerResults → WorkerResults
other_counters r = record r {
  files_total = 0;
  files_processed = 0;
  files_skipped = 0;
  files_pending = pos 0;
  directories_total = 0;
  directories_processed = 0;
  directories_skipped = 0;
  directories_pending = pos 0;
}
