-- ===== src/Analyzers.antt =====
-- The deterministic checkers of src/analyzers.
pub mod Tree
pub mod Shapes
pub mod Utils
pub mod Reports
pub mod Levels
pub mod Paths
pub mod Owners
pub mod Assertion
pub mod CommandInjection
pub mod Deserialization
pub mod ZipSlip
pub mod SqlInjection
pub mod PathTraversal
pub mod ResourceLeak
pub mod InfiniteRecursion
pub mod TypeMismatch
pub mod InvalidMethod
pub mod ValueErrors
pub mod NoneAttribute
pub mod UnstoredParams
pub mod HardcodedSecret
pub mod FileExists
pub mod UndefinedNames
pub mod Division
pub mod IndexGuard
pub mod DictKeys
pub mod Rewriting
pub mod HttpTimeout
pub mod UnsafeYaml
pub mod WeakCrypto
pub mod InsecureHttp
pub mod UnusedImports
pub mod Registry
pub mod Located
pub mod SecurityClaims
pub mod RuntimeClaims
pub mod GuardClaims
pub mod Grounded
pub mod Once
pub mod Members
pub mod Names
pub mod Handlers
pub mod Assigned
