-- ===== src/Pages/Tests.antt =====
-- The routes at a concrete database.
use v_note.Base.{◌≡◌, refl, true, false, not, ◌&&◌, same, any, some, ok, str_dec}
use v_note.Protocol.Paper.{ruled_wide}
use v_note.Store.Tables.{page_belongs_to_owner}
use v_note.Pages.{CreatePageRequest, create_page, get_page, get_thumbnail, delete_page}
use v_note.Pages.Owned.{routes-forbidden, Answers}
use v_note.Pages.Created.{IsAbsent, IsCreated, create_page-get_page, delete_page-IsAbsent}
use v_note.Samples.{pg, db, world}

not_owned : page_belongs_to_owner "page_1" "owner_2" db ≡ false
unfolding page_belongs_to_owner str_dec
not_owned = refl

routes-forbidden_example :
    Answers (get_page pg false "owner_2" "page_1" db) 403
    × (Answers (get_thumbnail false false "owner_2" "page_1" 1 db) 403
        × (Answers (delete_page false "owner_2" "page_1" world).1 403
            × ((delete_page false "owner_2" "page_1" world).0 ≡ world)))
routes-forbidden_example =
    routes-forbidden pg "owner_2" "page_1" db false false 1 world refl not_owned

abbrev request : CreatePageRequest
request = record { title = some " Notes "; paper = ruled_wide }

absent : IsAbsent "page_ff" db
unfolding str_dec
absent = record {
  pages = refl;
  batches = refl;
  tombstones = refl;
  erasures = refl;
  thumbnails = refl;
}

create_page-get_page_example :
    IsCreated pg 7 "ff" "owner_1" request world absent
      (create_page pg false 7 "ff" "owner_1" request world)
create_page-get_page_example = create_page-get_page pg 7 "ff" "owner_1" request world absent

owned : page_belongs_to_owner "page_1" "owner_1" db ≡ true
unfolding page_belongs_to_owner str_dec
owned = refl

unique : any (λ p. same p.id "page_1" && not (same p.owner_id "owner_1")) db.pages ≡ false
unfolding str_dec
unique = refl

delete_page-IsAbsent_example :
    ((delete_page false "owner_1" "page_1" world).1 ≡ ok tt)
    × IsAbsent "page_1" (delete_page false "owner_1" "page_1" world).0.store
delete_page-IsAbsent_example = delete_page-IsAbsent "owner_1" "page_1" world owned unique
