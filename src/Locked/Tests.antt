-- ===== src/Locked/Tests.antt =====
-- An instance: the text "n=-42", printed with the mutex free.
use ord_os.Base.{◌≡◌, inl, refl, some, [], ◌∷◌, arith}
use ord_os.Sync.Mutex.{Taken, Passed}
use ord_os.Sync.Tests.{kernel, free_mutex, free_mutex-IsMutex}
use ord_os.Console.{Screen}
use ord_os.Console.Print.{Displayed}
use ord_os.Format.Tests.{
  clear_screen, format_bytes, format, line, line-Formats, format-Text-cleared, home,
}
use ord_os.Locked.{printed, kprint}
use ord_os.Locked.Laws.{kprint-Displayed}

kprint-Displayed_example :
    (taken : Taken free_mutex kernel) × (done : Passed taken.after kernel) × (t : Screen) × (kprint
        5 300 format_bytes 100 1
        (0xffff_ffd6 ∷ [])
        free_mutex
        kernel
        clear_screen
      ≡ some (printed done.lock done.after t))
    × Displayed clear_screen line t
kprint-Displayed_example =
    kprint-Displayed 5 300 format_bytes 100 1 (0xffff_ffd6 ∷ []) format line free_mutex kernel
      clear_screen free_mutex-IsMutex (line-Formats _ _) format-Text-cleared (inl (omega arith))
      (omega arith) (omega arith) (omega arith) (refl, (refl, (refl, (refl, (refl, tt)))))
      (omega (arith, home))
