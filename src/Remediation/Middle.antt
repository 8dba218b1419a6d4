-- ===== src/Remediation/Middle.antt =====
-- A third of REMEDIATION_GUIDE in src/core/remediation_guide.py, in its order.
use githubprojectforissueide.Prelude.{List, [], ◌∷◌}
use githubprojectforissueide.Text.{Text, codes}

abbrev pub middle_entries : List (Text × Text)
middle_entries =
    (
      codes "AssertionError",
      codes
          "Fix the underlying condition that's actually false, or remove an assertion that doesn't hold in a legitimate case it's currently rejecting.",
    )
    ∷ (
      codes "NotImplementedError",
      codes
          "Implement the method/function that's still a stub, or handle the case at the call site instead of reaching the stub at all.",
    )
    ∷ (
      codes "TimeoutError",
      codes
          "Set an explicit, reasonable timeout on the operation; retry with backoff if transient; investigate why the call is slow rather than just raising the timeout value.",
    )
    ∷ (
      codes "ConnectionError",
      codes
          "Retry with backoff for transient failures, check the remote service's actual availability, and handle the unavailable case explicitly rather than letting it crash the caller.",
    )
    ∷ (
      codes "OSError",
      codes
          "Catch the specific OS-level failure (disk full, invalid path, device unavailable, ...) and respond to it explicitly -- don't assume a filesystem/OS call will always succeed.",
    )
    ∷ (
      codes "SQL Injection",
      codes
          "Use parameterized queries / prepared statements (cursor.execute(\"... WHERE id = ?\", (user_id,))) -- never build a query by formatting or concatenating untrusted input into the SQL string itself.",
    )
    ∷ (
      codes "Command Injection",
      codes
          "Don't use shell=True with a dynamically-built command; pass the command and its arguments as a list so the shell never re-parses them. If shell=True is unavoidable, shlex.quote every externally-influenced piece.",
    )
    ∷ (
      codes "Path Traversal",
      codes
          "Resolve the final path (os.path.realpath) and verify it's still inside the intended base directory before opening/writing it -- os.path.join() does not strip '..' segments on its own.",
    )
    ∷ (
      codes "Zip Slip",
      codes
          "Before extracting, resolve each archive member's target path and verify it stays inside the destination directory -- never call extractall()/extract() on an archive from an untrusted source without validating member paths first.",
    )
    ∷ (
      codes "Cross-Site Scripting (XSS)",
      codes
          "Auto-escape any user-supplied value before rendering it into HTML (use your template engine's default escaping -- e.g. Jinja2's autoescape -- rather than building HTML via raw string concatenation).",
    )
    ∷ (
      codes "Cross-Site Request Forgery (CSRF)",
      codes
          "Require an anti-CSRF token on every state-changing request, and set session cookies to SameSite=Lax or Strict.",
    )
    ∷ (
      codes "Hardcoded Credentials",
      codes
          "Move the value to an environment variable or a secrets manager (Vault, AWS/Azure/GCP secrets) and read it at runtime -- never commit a real credential to source control.",
    )
    ∷ (
      codes "Weak Cryptography",
      codes
          "Use a modern, vetted algorithm: SHA-256 or better for general hashing, bcrypt/scrypt/argon2 specifically for password hashing (never a general-purpose digest, sha256 included), AES-GCM for symmetric encryption.",
    )
    ∷ (
      codes "Insecure Deserialization",
      codes
          "Avoid pickle (or an unrestricted yaml.load) on data from any source you don't fully trust -- use a data-only format (JSON) instead, or restrict the loader (yaml.safe_load, a custom Unpickler allowlist).",
    )
    ∷ (
      codes "Server-Side Request Forgery (SSRF)",
      codes
          "Allowlist the destination host/IP server-side before making the request on the caller's behalf, and explicitly block internal/loopback/link-local address ranges.",
    )
    ∷ (
      codes "Sensitive Data Exposure",
      codes
          "Encrypt sensitive data at rest and in transit, never log secrets or full sensitive payloads, and minimize how long it's retained.",
    )
    ∷ (
      codes "Broken Access Control",
      codes
          "Enforce authorization server-side on every request that touches protected data or actions -- a UI-level check alone is not enforcement, since it can always be bypassed by calling the API directly.",
    )
    ∷ (
      codes "Race Condition",
      codes
          "Protect the shared mutable state with a proper lock/mutex, or restructure to use an atomic operation instead of a check-then-act sequence that another thread/process can interleave with.",
    )
    ∷ []
