-- ===== src/Upload/Tests.antt =====
-- Uploads of a photo and of a document.
use choschmous_v.Base.{
  ℕ, ◌*◌, ◌≡◌, refl, false, ◌||◌, none, some, List, [], ◌∷◌, nat_eq, is_some, All, codes, text_eq,
}
use choschmous_v.Upload.{
  File, photo, document, hero, tile, failed, value_or_null, start, Event, choose, remove, fulfilled,
  rejected, handle_file, handle, run, shows_file,
}
use choschmous_v.Upload.Laws.{IsAccepted, HasOrigin, run-HasOrigin}
use choschmous_v.Upload.Display.{IsCalm, run-shows_file}

abbrev control_size : ℕ
control_size = 5 * 1024 * 1024

abbrev portrait : File
portrait = record { name = codes "me.png"; type = codes "image/png"; size = 90000 }

-- Within the size of the control, beyond that of the upload.
abbrev large_portrait : File
large_portrait = record { name = codes "big.png"; type = codes "image/png"; size = 3000000 }

abbrev scan : File
scan = record { name = codes "id.pdf"; type = codes "application/pdf"; size = 4000000 }

-- The upload goes on behind the removal of the photo, and the next one overtakes it.
abbrev overtaken : List Event
overtaken =
    choose portrait
    ∷ remove
    ∷ choose portrait
    ∷ fulfilled 0 (codes "/api/v1/files/b")
    ∷ fulfilled 0 (codes "/api/v1/files/a")
    ∷ []

run-HasOrigin_example :
    All
      (IsAccepted hero control_size photo)
      (run hero control_size photo overtaken (start none)).posted
    × HasOrigin hero control_size photo none (run hero control_size photo overtaken (start none))
run-HasOrigin_example = run-HasOrigin hero control_size photo none overtaken

late_answer :
    (run hero control_size photo overtaken (start none)).value ≡ some (codes "/api/v1/files/a")
unfolding run handle handle_file start
late_answer = refl

-- A removed photo comes back, and the control does not show it.
abbrev removed_early : List Event
removed_early = choose portrait ∷ remove ∷ fulfilled 0 (codes "/api/v1/files/a") ∷ []

removed_photo :
    let s = run hero control_size photo removed_early (start none) in
    (s.value ≡ some (codes "/api/v1/files/a")) × (shows_file hero control_size photo s ≡ false)
unfolding run handle handle_file start
removed_photo = (refl, refl)

-- The second file is refused before it is posted, behind a removal.
abbrev calm : List Event
calm =
    choose scan
    ∷ choose large_portrait
    ∷ fulfilled 0 (codes "/api/v1/files/c")
    ∷ remove
    ∷ choose portrait
    ∷ rejected 0
    ∷ []

calm-IsCalm : IsCalm tile control_size document calm (start none)
unfolding handle handle_file start
calm-IsCalm = (
  λ q. absurd (cc q),
  (
    λ q. absurd (cc q),
    (λ q. absurd (cc q), (λ q. refl, (λ q. absurd (cc q), (λ q. absurd (cc q), tt)))),
  ),
)

run-shows_file_example :
    let s = run tile control_size document calm (start none) in
    shows_file tile control_size document s ≡ (s.uploading || is_some (value_or_null s.value))
run-shows_file_example =
    run-shows_file tile control_size document none calm refl
      (refl, (refl, (refl, (tt, (refl, (tt, tt)))))) calm-IsCalm

refused_photo :
    (run hero control_size photo
      (choose large_portrait ∷ rejected 0 ∷ [])
      (start none)).upload_error
    ≡ some failed
unfolding run handle handle_file start
refused_photo = refl
