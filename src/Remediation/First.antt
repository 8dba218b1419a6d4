-- ===== src/Remediation/First.antt =====
-- A third of REMEDIATION_GUIDE in src/core/remediation_guide.py, in its order.
use githubprojectforissueide.Prelude.{List, [], ◌∷◌}
use githubprojectforissueide.Text.{Text, codes}

abbrev pub first_entries : List (Text × Text)
first_entries =
    (
      codes "SyntaxError",
      codes
          "Fix depends on the parser's exact message and line/column: insert a missing ':', close an unmatched bracket, or correct whatever token the error points at. review-cli's own missing-colon and misaligned-indent fixes (src/core/orchestrator.py) automate the two most common shapes.",
    )
    ∷ (
      codes "IndentationError",
      codes
          "Align the line to the correct block level -- one level (4 spaces) deeper than the enclosing if/def/for/while/class/try header, or dedent to match a real enclosing block's own level.",
    )
    ∷ (
      codes "NameError",
      codes
          "Define the missing name, fix a typo in it, add the import that should have provided it, or fix the scope it's used in (defined in one function/module but referenced from another).",
    )
    ∷ (
      codes "UnboundLocalError",
      codes
          "Move the assignment before the first read, or rename the local so it no longer shadows the name you actually meant to reference. This happens because Python treats a name as local to a function's ENTIRE body the moment it's assigned anywhere in that function, even below the line that reads it -- the earlier read isn't finding a truly undefined name, just a local that hasn't been given a value yet.",
    )
    ∷ (
      codes "TypeError",
      codes
          "Convert or validate the argument's type before the operation/call, or fix the call site to pass the type/arity the function actually expects.",
    )
    ∷ (
      codes "ValueError",
      codes
          "Validate the value is in the expected domain/format before using it (e.g. confirm a string is numeric before int()), or catch it at the boundary where untrusted input enters the function.",
    )
    ∷ (
      codes "IndexError",
      codes
          "Check len(sequence) (or the specific bound) before indexing, or use a safe-access pattern (slicing, next(iter(seq), default)) instead of a bare literal index.",
    )
    ∷ (
      codes "KeyError",
      codes
          "Use dict.get(key, default) instead of dict[key], or check `if key in d:` before subscripting.",
    )
    ∷ (
      codes "AttributeError",
      codes
          "Guard against None (or the wrong type) before the attribute access -- an `is None` check right after any call that can return None is the most common fix -- or correct what's actually being passed in.",
    )
    ∷ (
      codes "ImportError",
      codes
          "Install the missing package, fix a typo in the import path, or restructure to break a circular import.",
    )
    ∷ (
      codes "ModuleNotFoundError",
      codes
          "Same as ImportError -- install the package, fix the module path, or confirm it's actually available in this environment.",
    )
    ∷ (
      codes "FileNotFoundError",
      codes
          "Check os.path.exists()/os.path.isfile() before opening, or wrap the open() in try/except FileNotFoundError and handle the missing-file case explicitly.",
    )
    ∷ (
      codes "PermissionError",
      codes
          "Catch it explicitly around the filesystem call and handle a denied write/read (fall back to another location, surface a clear error) rather than letting it propagate unhandled; verify the target path is actually writable/readable by the running process before relying on it.",
    )
    ∷ (
      codes "ZeroDivisionError",
      codes
          "Guard the denominator: `if denom == 0: <handle>` before dividing (or `if len(seq) == 0:` when dividing by a sequence's length).",
    )
    ∷ (
      codes "RuntimeError",
      codes
          "Generic -- the fix is entirely specific to the message (e.g. \"dictionary changed size during iteration\" -> iterate over a copy of the keys/items instead of the live container).",
    )
    ∷ (
      codes "RecursionError",
      codes
          "Add or fix a missing base case so recursion actually terminates; convert to an iterative implementation if the depth is inherently unbounded by input size.",
    )
    ∷ (
      codes "MemoryError",
      codes
          "Stream or chunk the data instead of loading it all at once -- generators, iterators, or paginated processing instead of building one huge in-memory structure.",
    )
    ∷ (
      codes "OverflowError",
      codes
          "Use a numeric type/library that supports the needed range, or add an explicit bound/clamp on the computation before it's performed.",
    )
    ∷ []
