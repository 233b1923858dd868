-- ===== src/Buddy/Normal.antt =====
-- An example that the tests share: eight free pages of normal memory behind eight in use.
use ord_os.Base.{ℕ, ◌≡◌, inl, refl, true, false, ◌&&◌, ◌==◌, if◌then◌else◌, [], ◌∷◌, arith}
use ord_os.Buddy.InUse.{IsPage}
use ord_os.Buddy.{Buddy, Page, MemZone}
use ord_os.Buddy.Blocks.{IsBuddy, IsBlock, zone_of}

abbrev pub pages : ℕ → Page
pages p = record {
  order = if p == 0x1008 then 3 else 0;
  zone_type = zone_of p;
  reserved = false;
  buddy = p == 0x1008;
}

abbrev pub zones : ℕ → MemZone
zones z = record {
  areas = λ o.
      if z == 1 && o == 3
      then record { mem_blocks = 0x1008 ∷ []; blocks_free = 1 }
      else record { mem_blocks = []; blocks_free = 0 };
  pg_start = 0x1000;
  pg_cnt = 16;
  pg_free = 8;
  lock = 0;
}

abbrev pub buddy : Buddy
buddy = record { pages = pages; pages_cnt = 0x1010; zones = zones }

first : (p : ℕ) → (p == 0x1008) ≡ true → p ≡ 0x1008
first p h = ground (arith, h)

whole : IsBlock buddy 0x1008 3
whole = record {
  order_small = omega arith;
  multiple = 0x201;
  aligned = refl;
  fits = omega arith;
  usable = λ k lo hi. refl;
}

pub buddy-IsBuddy : IsBuddy buddy
buddy-IsBuddy = record {
  small = omega arith;
  zone = λ p lt. refl;
  listed = λ z o p. ground arith;
  distinct = λ z o. ground arith;
  counted = λ z o. ground arith;
  block = λ p f. rw (first p f) whole;
  apart = λ p q fp fq ne. absurd (ground arith);
}

abbrev pub the_page : ℕ
the_page = 0xc100_0000

pub the_page-IsPage : IsPage buddy the_page
the_page-IsPage = record {
  page = 0x1000;
  address = refl;
  zone = refl;
  held = record {
    is_block = record {
      order_small = omega arith;
      multiple = 0x1000;
      aligned = refl;
      fits = omega arith;
      usable = λ k lo hi. refl;
    };
    clear = λ q free. rw (first q free) (inl (omega arith));
  };
}
