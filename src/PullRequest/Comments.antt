-- ===== src/PullRequest/Comments.antt =====
-- Comments are posted once: what `post_fix_suggestions` and `post_no_fix_comments` of
-- src/cli/review_pr.py leave to later runs.
use githubprojectforissueide.Prelude.{
  ℕ, zero, suc, ◌≤◌, length, take, append-nil, ap, ◌≡◌, refl, sym, subst, ◌∙◌, not, ◌||◌, Bool,
  true, List, [], ◌∷◌, ◌++◌, All, All-map, any, arith, Bool-cases, inl, inr, if◌then◌else◌,
}
use githubprojectforissueide.Text.{Text, text_eq_refl}
use githubprojectforissueide.Models.{Finding, has_fix}
use githubprojectforissueide.PullRequest.{
  Comment, is_at, has_comment, comment_on, suggestion_body, no_fix_body, post_fix_suggestions,
  post_no_fix_comments, post_comments, list_review_comments, page_size,
}

any-append :
    {A : Type 0} (p : A → Bool) (xs ys : List A) → any p (xs ++ ys) ≡ (any p xs || any p ys)
unfolding any
any-append p [] ys = refl
any-append p (x ∷ xs) ys = ground (arith, any-append p xs ys)

has_comment-append :
    (a b : List Comment) (f : Finding)
    → has_comment (a ++ b) f ≡ (has_comment a f || has_comment b f)
unfolding has_comment
has_comment-append a b f = any-append (is_at f) a b

is_at-comment_on : (f : Finding) (body : Text) → is_at f (comment_on f body) ≡ true
unfolding is_at comment_on
is_at-comment_on f body = ground (arith, text_eq_refl f.file)

-- What both functions do: a comment on each finding of a kind that is at no comment yet.
post_where : (Finding → Bool) → (Finding → Text) → List Comment → List Finding → List Comment
post_where p body existing [] = []
post_where p body existing (f ∷ fs) =
    let rest = post_where p body existing fs in
    if not (p f)
    then rest
    else if has_comment existing f
    then rest
    else comment_on f (body f) ∷ rest

post_fix_where :
    (wide : Text → Text) (existing : List Comment) (fs : List Finding)
    → post_fix_suggestions wide existing fs ≡ post_where has_fix (suggestion_body wide) existing fs
unfolding post_fix_suggestions post_where
post_fix_where wide existing [] = refl
post_fix_where wide existing (f ∷ fs) = rw (post_fix_where wide existing fs)

post_no_fix_where :
    (wide : Text → Text) (existing : List Comment) (fs : List Finding)
    → post_no_fix_comments wide existing fs
      ≡ post_where (λ f. not (has_fix f)) (no_fix_body wide) existing fs
unfolding post_no_fix_comments post_where
post_no_fix_where wide existing [] = refl
post_no_fix_where wide existing (f ∷ fs) = elim (Bool-cases (has_fix f)) [
  | inl fixable ↦ rw (fixable, post_no_fix_where wide existing fs)
  | inr plain ↦ rw (plain, post_no_fix_where wide existing fs)
]

-- A finding of the kind is at some comment after the function.
Covered : (Finding → Bool) → List Comment → List Comment → Finding → Type 0
Covered p existing new f = p f ≡ true → (has_comment existing f || has_comment new f) ≡ true

module _ (p : Finding → Bool) (body : Finding → Text) (existing : List Comment) where
  post_where_grows :
      (f g : Finding) (fs : List Finding)
      → has_comment (post_where p body existing fs) g ≡ true
      → has_comment (post_where p body existing (f ∷ fs)) g ≡ true
  unfolding post_where has_comment any
  post_where_grows f g fs h = ground arith

  post_where_head :
      (f : Finding) (fs : List Finding) → Covered p existing (post_where p body existing (f ∷ fs)) f
  unfolding post_where Covered has_comment any
  post_where_head f fs wanted = ground (arith, is_at-comment_on f (body f))

  post_where-Covered :
      (fs : List Finding) → All (Covered p existing (post_where p body existing fs)) fs
  post_where-Covered [] = tt
  post_where-Covered (f ∷ fs) = (
    post_where_head f fs,
    All-map (Covered p existing (post_where p body existing fs)) _ fs
        (λ g h.
          unfold Covered in
          λ wanted.
            let before : (has_comment existing g || has_comment (post_where p body existing fs) g)
                ≡ true =
              h wanted in
            ground (arith, post_where_grows f g fs))
        (post_where-Covered fs),
  )

  -- Nothing is posted where every finding of the kind is at a comment.
  post_where-nil :
      (fs : List Finding)
      → All (λ f. p f ≡ true → has_comment existing f ≡ true) fs
      → post_where p body existing fs ≡ []
  unfolding post_where
  post_where-nil [] h = refl
  post_where-nil (f ∷ fs) (h, hs) = elim (Bool-cases (p f)) [
    | inl wanted ↦ rw (wanted, h wanted, post_where-nil fs hs)
    | inr other ↦ rw (other, post_where-nil fs hs)
  ]

All-both :
    (P Q R : Finding → Type 0) (fs : List Finding)
    → ((f : Finding) → P f → Q f → R f)
    → All P fs
    → All Q fs
    → All R fs
All-both P Q R [] g h k = tt
All-both P Q R (f ∷ fs) g h k = (g f h.0 k.0, All-both P Q R fs g h.1 k.1)

Covered-by_either :
    (existing suggested plain : List Comment) (f : Finding)
    → Covered has_fix existing suggested f
    → Covered (λ g. not (has_fix g)) (existing ++ suggested) plain f
    → has_comment ((existing ++ suggested) ++ plain) f ≡ true
unfolding Covered
Covered-by_either existing suggested plain f h k =
    let outer = has_comment-append (existing ++ suggested) plain f in
    let inner = has_comment-append existing suggested f in
    elim (Bool-cases (has_fix f)) [
      | inl fixable ↦ let there = h fixable in ground arith
      | inr bare ↦ let there = k (rw bare) in ground arith
    ]

has_comment-take :
    (n : ℕ) (comments : List Comment) (f : Finding)
    → has_comment (take n comments) f ≡ true
    → has_comment comments f ≡ true
unfolding has_comment any
has_comment-take zero comments f h = cc
has_comment-take (suc n) [] f h = h
has_comment-take (suc n) (c ∷ comments) f h = ground (arith, has_comment-take n comments f)

-- What a listed comment is at, a comment is at.
Covered-list :
    (p : Finding → Bool) (existing new : List Comment) (f : Finding)
    → Covered p (list_review_comments existing) new f
    → Covered p existing new f
unfolding Covered list_review_comments
Covered-list p existing new f h = λ wanted.
    let there = h wanted in
    elim (Bool-cases (has_comment (take page_size existing) f)) [
      | inl listed ↦ let held = has_comment-take page_size existing f listed in ground arith
      | inr other ↦ ground arith
    ]

-- After both functions every finding is at a comment on its file and the last line of its range.
pub post_comments-All :
    (wide : Text → Text) (existing : List Comment) (fs : List Finding)
    → All (λ f. has_comment (post_comments wide existing fs) f ≡ true) fs
unfolding post_comments
post_comments-All wide existing fs =
    let listed = list_review_comments existing in
    let suggested = post_fix_suggestions wide listed fs in
    let relisted = list_review_comments (existing ++ suggested) in
    let plain = post_no_fix_comments wide relisted fs in
    All-both (Covered has_fix existing suggested)
      (Covered (λ g. not (has_fix g)) (existing ++ suggested) plain) _ fs
      (Covered-by_either existing suggested plain)
      (All-map _ _ fs (Covered-list has_fix existing suggested) (
        subst (λ new. All (Covered has_fix listed new) fs) (sym (post_fix_where wide listed fs))
          (post_where-Covered has_fix (suggestion_body wide) listed fs)))
      (All-map _ _ fs (Covered-list (λ g. not (has_fix g)) (existing ++ suggested) plain) (
        subst (λ new. All (Covered (λ g. not (has_fix g)) relisted new) fs)
          (sym (post_no_fix_where wide relisted fs))
          (post_where-Covered (λ g. not (has_fix g)) (no_fix_body wide) relisted fs)))

take_all : {A : Type 0} (n : ℕ) (xs : List A) → length xs ≤ n → take n xs ≡ xs
take_all zero [] h = refl
take_all zero (x ∷ xs) h = absurd (omega arith)
take_all (suc n) [] h = refl
take_all (suc n) (x ∷ xs) h = ap (◌∷◌ x) (take_all n xs (omega arith))

-- Where every finding is at a comment, and all comments are listed, nothing is posted.
post_comments-nothing :
    (wide : Text → Text) (comments : List Comment) (fs : List Finding)
    → length comments ≤ 30
    → All (λ f. has_comment comments f ≡ true) fs
    → post_comments wide comments fs ≡ comments
unfolding post_comments list_review_comments
post_comments-nothing wide comments fs few all =
    let whole = take_all 30 comments few in
    let no_suggestion : post_fix_suggestions wide comments fs ≡ [] =
      post_fix_where wide comments fs
      ∙ post_where-nil has_fix (suggestion_body wide) comments fs (
          All-map _ (λ f. has_fix f ≡ true → has_comment comments f ≡ true) fs
            (λ f there wanted. there) all) in
    let no_plain : post_no_fix_comments wide comments fs ≡ [] =
      post_no_fix_where wide comments fs
      ∙ post_where-nil (λ f. not (has_fix f)) (no_fix_body wide) comments fs
          (All-map _ (λ f. not (has_fix f) ≡ true → has_comment comments f ≡ true) fs
            (λ f there wanted. there) all) in
    rw (whole, no_suggestion, append-nil comments, whole, no_plain) (append-nil comments)

-- Where a run leaves a pull request with at most 30 comments, as many as are listed, a run on the same
-- findings posts no comment.
pub post_comments-again :
    (wide : Text → Text) (existing : List Comment) (fs : List Finding)
    → length (post_comments wide existing fs) ≤ 30
    → post_comments wide (post_comments wide existing fs) fs ≡ post_comments wide existing fs
post_comments-again wide existing fs few =
    post_comments-nothing wide (post_comments wide existing fs) fs few
      (post_comments-All wide existing fs)
