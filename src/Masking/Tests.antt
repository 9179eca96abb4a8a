-- ===== src/Masking/Tests.antt =====
-- A national id and e-mail addresses.
use choschmous_v.Base.{
  ◌≤◌, ◌≡◌, refl, true, some, ◌∷◌, ◌++◌, arith, is_some, nat_eq, length, codes, text_eq, trim,
}
use choschmous_v.Masking.{drop, hidden}
use choschmous_v.Masking.Email.{at_sign, dot, mask_email}
use choschmous_v.Masking.Email.Laws.{mask_email_reveals}

id_trimmed : trim (codes " 01020304 ") ≡ codes "0102" ++ codes "0304"
unfolding trim
id_trimmed = refl

short_id : length (trim (codes "AB12")) ≤ 4
unfolding trim
short_id = omega arith

address_masked : mask_email (some (codes "panha@example.com")) ≡ some (codes "pa***@***.com")
unfolding mask_email drop
address_masked = refl

mask_email_reveals_example :
    (is_some (mask_email (some (codes "a@b.co"))) ≡ true)
    × (mask_email
          (some ((codes "pa" ++ codes "nha") ++ at_sign ∷ (codes "example" ++ dot ∷ codes "com")))
        ≡ some ((codes "pa" ++ hidden) ++ at_sign ∷ (hidden ++ dot ∷ codes "com")))
    × (mask_email (some (codes "panha")) ≡ some hidden)
mask_email_reveals_example =
    mask_email_reveals (some (codes "a@b.co")) (codes "pa") (codes "nha") (codes "xample")
      (codes "com") (codes "panha") 101 refl (omega arith)
      (refl, (refl, (refl, (refl, (refl, tt)))))
      (refl, (refl, (refl, (refl, (refl, (refl, (refl, (refl, (refl, (refl, (refl, tt)))))))))))
      (refl, (refl, (refl, tt))) refl
