-- ===== src/Vpage/Tests.antt =====
-- An instance of the theorem: an empty directory.
use ord_os.Base.{ℕ, ◌⊎◌, refl, arith}
use ord_os.Buddy.Normal.{buddy, buddy-IsBuddy, the_page-IsPage}
use ord_os.Vpage.{Paging, vpage_link_addr}
use ord_os.Vpage.Walk.{IsPaging, Directed}
use ord_os.Vpage.Link.{Linked}
use ord_os.Vpage.Laws.{Refused, vpage_link_addr-Linked}

-- The directory lies in page 0x1000.
abbrev empty : Paging
empty = record { buddy = buddy; words = λ a i. 0 }

nothing : (i pt : ℕ) → Directed empty 0x100_0000 i pt → ⊥
nothing i pt d = cc

empty-IsPaging : IsPaging 0x100_0000 empty
empty-IsPaging = record {
  valid = buddy-IsBuddy;
  released = refl;
  directory = the_page-IsPage;
  word = λ i. omega arith;
  table = λ i pt lt d. absurd (nothing i pt d);
  not_directory = λ i pt lt d. absurd (nothing i pt d);
  own = λ i j pt hi hj d d'. absurd (nothing i pt d);
}

vpage_link_addr-Linked_example :
    Linked 0x100_0000 0xbfff_f000 empty (vpage_link_addr 0x100_0000 0xbfff_f000 empty)
    ⊎ Refused 0x100_0000 empty (vpage_link_addr 0x100_0000 0xbfff_f000 empty)
vpage_link_addr-Linked_example =
    vpage_link_addr-Linked 0x100_0000 0xbfff_f000 empty empty-IsPaging (omega arith) refl
