-- ===== src/Remediation/Last.antt =====
-- A third of REMEDIATION_GUIDE in src/core/remediation_guide.py, in its order.
use githubprojectforissueide.Prelude.{List, [], ◌∷◌}
use githubprojectforissueide.Text.{Text, codes}

abbrev pub last_entries : List (Text × Text)
last_entries =
    (
      codes "Directory Traversal",
      codes
          "Same remediation as Path Traversal -- resolve and verify the final path stays inside the intended directory before use.",
    )
    ∷ (
      codes "Arbitrary File Write",
      codes
          "Validate and constrain the destination path the same way as Path Traversal, and never let caller-controlled input choose the target path unconstrained.",
    )
    ∷ (
      codes "Arbitrary File Read",
      codes
          "Same constraint as Arbitrary File Write, applied to the path being read instead of written.",
    )
    ∷ (
      codes "Arbitrary File Delete",
      codes
          "Same constraint again, applied to a delete operation -- these are usually even higher severity, since there's no way to recover the file afterward.",
    )
    ∷ (
      codes "Logic Error",
      codes
          "Requires knowing the intended behavior -- there's no generic fix; trace the actual vs. expected output for a concrete input and correct the faulty condition/calculation/return value.",
    )
    ∷ (
      codes "Resource Leak",
      codes
          "Use a context manager (`with open(...) as f:`) so the resource is closed automatically even if an exception is raised partway through, instead of an explicit .close() that can be skipped.",
    )
    ∷ (
      codes "Dead Code",
      codes
          "Delete it. If it's genuinely unreachable, keeping it only adds confusion and maintenance cost.",
    )
    ∷ (
      codes "Duplicate Code",
      codes
          "Extract the shared logic into one function/method and have both call sites use it, rather than keeping two copies that can drift out of sync.",
    )
    ∷ (
      codes "Unused Variable",
      codes
          "Delete it, or if it's intentionally unused (e.g. a loop variable you don't need), rename it to `_` to make that explicit.",
    )
    ∷ (codes "Unused Import", codes "Delete it.")
    ∷ (
      codes "Missing Input Validation",
      codes
          "Validate type, range, and format at every trust boundary (function arguments from external callers, request bodies, file contents) before using the value, not after.",
    )
    ∷ (
      codes "Missing Exception Handling",
      codes
          "Wrap the specific risky operation in try/except naming the actual exception type you expect, with real recovery or a clear re-raise -- not a bare `except:` that swallows everything indiscriminately.",
    )
    ∷ (
      codes "Infinite Loop",
      codes
          "Verify the loop's exit condition is actually reachable from every code path inside the loop body -- a common cause is forgetting to update the loop variable on some branch.",
    )
    ∷ (
      codes "Performance Bottleneck",
      codes
          "Profile first to find the actual hot path -- don't guess. Then fix the real cause: algorithmic complexity, an avoidable N+1 query/call pattern, missing caching, or unnecessary repeated work.",
    )
    ∷ (
      codes "Concurrency Issue",
      codes
          "Identify the specific shared state being accessed unsafely across threads/processes/coroutines and protect it with the appropriate primitive (lock, queue, atomic operation) -- there's no one generic fix; it depends on exactly what's being shared and how.",
    )
    ∷ (
      codes "Thread Safety Issue",
      codes
          "Same as Concurrency Issue -- protect the specific shared mutable state with a lock, or redesign so each thread owns its own copy instead of sharing it.",
    )
    ∷ []
