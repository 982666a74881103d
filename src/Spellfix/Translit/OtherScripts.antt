-- ===== src/Spellfix/Translit/OtherScripts.antt =====
-- internal/spellfix/spellfix.c: the rows of translit for Greek and Cyrillic letters, and those that
-- follow them.
use letarette.Base.{List, [], ◌∷◌}
use letarette.Spellfix.Translit.Row.{Transliteration, entry}

unfoldable pub greek : List Transliteration
greek =
    entry 0x0386 0x41 0 0 0
    ∷ entry 0x0388 0x45 0 0 0
    ∷ entry 0x0389 0x49 0 0 0
    ∷ entry 0x038A 0x49 0 0 0
    ∷ entry 0x038C 0x4f 0 0 0
    ∷ entry 0x038E 0x59 0 0 0
    ∷ entry 0x038F 0x4f 0 0 0
    ∷ entry 0x0390 0x69 0 0 0
    ∷ entry 0x0391 0x41 0 0 0
    ∷ entry 0x0392 0x42 0 0 0
    ∷ entry 0x0393 0x47 0 0 0
    ∷ entry 0x0394 0x44 0 0 0
    ∷ entry 0x0395 0x45 0 0 0
    ∷ entry 0x0396 0x5a 0 0 0
    ∷ entry 0x0397 0x49 0 0 0
    ∷ entry 0x0398 0x54 0x68 0 0
    ∷ entry 0x0399 0x49 0 0 0
    ∷ entry 0x039A 0x4b 0 0 0
    ∷ entry 0x039B 0x4c 0 0 0
    ∷ entry 0x039C 0x4d 0 0 0
    ∷ entry 0x039D 0x4e 0 0 0
    ∷ entry 0x039E 0x58 0 0 0
    ∷ entry 0x039F 0x4f 0 0 0
    ∷ entry 0x03A0 0x50 0 0 0
    ∷ entry 0x03A1 0x52 0 0 0
    ∷ entry 0x03A3 0x53 0 0 0
    ∷ entry 0x03A4 0x54 0 0 0
    ∷ entry 0x03A5 0x59 0 0 0
    ∷ entry 0x03A6 0x46 0 0 0
    ∷ entry 0x03A7 0x43 0x68 0 0
    ∷ entry 0x03A8 0x50 0x73 0 0
    ∷ entry 0x03A9 0x4f 0 0 0
    ∷ entry 0x03AA 0x49 0 0 0
    ∷ entry 0x03AB 0x59 0 0 0
    ∷ entry 0x03AC 0x61 0 0 0
    ∷ entry 0x03AD 0x65 0 0 0
    ∷ entry 0x03AE 0x69 0 0 0
    ∷ entry 0x03AF 0x69 0 0 0
    ∷ entry 0x03B1 0x61 0 0 0
    ∷ entry 0x03B2 0x62 0 0 0
    ∷ entry 0x03B3 0x67 0 0 0
    ∷ entry 0x03B4 0x64 0 0 0
    ∷ entry 0x03B5 0x65 0 0 0
    ∷ entry 0x03B6 0x7a 0 0 0
    ∷ entry 0x03B7 0x69 0 0 0
    ∷ entry 0x03B8 0x74 0x68 0 0
    ∷ entry 0x03B9 0x69 0 0 0
    ∷ entry 0x03BA 0x6b 0 0 0
    ∷ entry 0x03BB 0x6c 0 0 0
    ∷ entry 0x03BC 0x6d 0 0 0
    ∷ entry 0x03BD 0x6e 0 0 0
    ∷ entry 0x03BE 0x78 0 0 0
    ∷ entry 0x03BF 0x6f 0 0 0
    ∷ entry 0x03C0 0x70 0 0 0
    ∷ entry 0x03C1 0x72 0 0 0
    ∷ entry 0x03C3 0x73 0 0 0
    ∷ entry 0x03C4 0x74 0 0 0
    ∷ entry 0x03C5 0x79 0 0 0
    ∷ entry 0x03C6 0x66 0 0 0
    ∷ entry 0x03C7 0x63 0x68 0 0
    ∷ entry 0x03C8 0x70 0x73 0 0
    ∷ entry 0x03C9 0x6f 0 0 0
    ∷ entry 0x03CA 0x69 0 0 0
    ∷ entry 0x03CB 0x79 0 0 0
    ∷ entry 0x03CC 0x6f 0 0 0
    ∷ entry 0x03CD 0x79 0 0 0
    ∷ entry 0x03CE 0x69 0 0 0
    ∷ []

unfoldable pub cyrillic : List Transliteration
cyrillic =
    entry 0x0400 0x45 0 0 0
    ∷ entry 0x0401 0x45 0 0 0
    ∷ entry 0x0402 0x44 0 0 0
    ∷ entry 0x0403 0x47 0 0 0
    ∷ entry 0x0404 0x45 0 0 0
    ∷ entry 0x0405 0x5a 0 0 0
    ∷ entry 0x0406 0x49 0 0 0
    ∷ entry 0x0407 0x49 0 0 0
    ∷ entry 0x0408 0x4a 0 0 0
    ∷ entry 0x0409 0x49 0 0 0
    ∷ entry 0x040A 0x4e 0 0 0
    ∷ entry 0x040B 0x44 0 0 0
    ∷ entry 0x040C 0x4b 0 0 0
    ∷ entry 0x040D 0x49 0 0 0
    ∷ entry 0x040E 0x55 0 0 0
    ∷ entry 0x040F 0x44 0 0 0
    ∷ entry 0x0410 0x41 0 0 0
    ∷ entry 0x0411 0x42 0 0 0
    ∷ entry 0x0412 0x56 0 0 0
    ∷ entry 0x0413 0x47 0 0 0
    ∷ entry 0x0414 0x44 0 0 0
    ∷ entry 0x0415 0x45 0 0 0
    ∷ entry 0x0416 0x5a 0x68 0 0
    ∷ entry 0x0417 0x5a 0 0 0
    ∷ entry 0x0418 0x49 0 0 0
    ∷ entry 0x0419 0x49 0 0 0
    ∷ entry 0x041A 0x4b 0 0 0
    ∷ entry 0x041B 0x4c 0 0 0
    ∷ entry 0x041C 0x4d 0 0 0
    ∷ entry 0x041D 0x4e 0 0 0
    ∷ entry 0x041E 0x4f 0 0 0
    ∷ entry 0x041F 0x50 0 0 0
    ∷ entry 0x0420 0x52 0 0 0
    ∷ entry 0x0421 0x53 0 0 0
    ∷ entry 0x0422 0x54 0 0 0
    ∷ entry 0x0423 0x55 0 0 0
    ∷ entry 0x0424 0x46 0 0 0
    ∷ entry 0x0425 0x4b 0x68 0 0
    ∷ entry 0x0426 0x54 0x63 0 0
    ∷ entry 0x0427 0x43 0x68 0 0
    ∷ entry 0x0428 0x53 0x68 0 0
    ∷ entry 0x0429 0x53 0x68 0x63 0x68
    ∷ entry 0x042A 0x61 0 0 0
    ∷ entry 0x042B 0x59 0 0 0
    ∷ entry 0x042C 0x59 0 0 0
    ∷ entry 0x042D 0x45 0 0 0
    ∷ entry 0x042E 0x49 0x75 0 0
    ∷ entry 0x042F 0x49 0x61 0 0
    ∷ entry 0x0430 0x61 0 0 0
    ∷ entry 0x0431 0x62 0 0 0
    ∷ entry 0x0432 0x76 0 0 0
    ∷ entry 0x0433 0x67 0 0 0
    ∷ entry 0x0434 0x64 0 0 0
    ∷ entry 0x0435 0x65 0 0 0
    ∷ entry 0x0436 0x7a 0x68 0 0
    ∷ entry 0x0437 0x7a 0 0 0
    ∷ entry 0x0438 0x69 0 0 0
    ∷ entry 0x0439 0x69 0 0 0
    ∷ entry 0x043A 0x6b 0 0 0
    ∷ entry 0x043B 0x6c 0 0 0
    ∷ entry 0x043C 0x6d 0 0 0
    ∷ entry 0x043D 0x6e 0 0 0
    ∷ entry 0x043E 0x6f 0 0 0
    ∷ entry 0x043F 0x70 0 0 0
    ∷ entry 0x0440 0x72 0 0 0
    ∷ entry 0x0441 0x73 0 0 0
    ∷ entry 0x0442 0x74 0 0 0
    ∷ entry 0x0443 0x75 0 0 0
    ∷ entry 0x0444 0x66 0 0 0
    ∷ entry 0x0445 0x6b 0x68 0 0
    ∷ entry 0x0446 0x74 0x63 0 0
    ∷ entry 0x0447 0x63 0x68 0 0
    ∷ entry 0x0448 0x73 0x68 0 0
    ∷ entry 0x0449 0x73 0x68 0x63 0x68
    ∷ entry 0x044A 0x61 0 0 0
    ∷ entry 0x044B 0x79 0 0 0
    ∷ entry 0x044C 0x79 0 0 0
    ∷ entry 0x044D 0x65 0 0 0
    ∷ entry 0x044E 0x69 0x75 0 0
    ∷ entry 0x044F 0x69 0x61 0 0
    ∷ entry 0x0450 0x65 0 0 0
    ∷ entry 0x0451 0x65 0 0 0
    ∷ entry 0x0452 0x64 0 0 0
    ∷ entry 0x0453 0x67 0 0 0
    ∷ entry 0x0454 0x65 0 0 0
    ∷ entry 0x0455 0x7a 0 0 0
    ∷ entry 0x0456 0x69 0 0 0
    ∷ entry 0x0457 0x69 0 0 0
    ∷ entry 0x0458 0x6a 0 0 0
    ∷ entry 0x0459 0x69 0 0 0
    ∷ entry 0x045A 0x6e 0 0 0
    ∷ entry 0x045B 0x64 0 0 0
    ∷ entry 0x045C 0x6b 0 0 0
    ∷ entry 0x045D 0x69 0 0 0
    ∷ entry 0x045E 0x75 0 0 0
    ∷ entry 0x045F 0x64 0 0 0
    ∷ []

unfoldable pub additional : List Transliteration
additional =
    entry 0x1E02 0x42 0 0 0
    ∷ entry 0x1E03 0x62 0 0 0
    ∷ entry 0x1E0A 0x44 0 0 0
    ∷ entry 0x1E0B 0x64 0 0 0
    ∷ entry 0x1E1E 0x46 0 0 0
    ∷ entry 0x1E1F 0x66 0 0 0
    ∷ entry 0x1E40 0x4D 0 0 0
    ∷ entry 0x1E41 0x6D 0 0 0
    ∷ entry 0x1E56 0x50 0 0 0
    ∷ entry 0x1E57 0x70 0 0 0
    ∷ entry 0x1E60 0x53 0 0 0
    ∷ entry 0x1E61 0x73 0 0 0
    ∷ entry 0x1E6A 0x54 0 0 0
    ∷ entry 0x1E6B 0x74 0 0 0
    ∷ entry 0x1E80 0x57 0 0 0
    ∷ entry 0x1E81 0x77 0 0 0
    ∷ entry 0x1E82 0x57 0 0 0
    ∷ entry 0x1E83 0x77 0 0 0
    ∷ entry 0x1E84 0x57 0 0 0
    ∷ entry 0x1E85 0x77 0 0 0
    ∷ entry 0x1EF2 0x59 0 0 0
    ∷ entry 0x1EF3 0x79 0 0 0
    ∷ entry 0xFB00 0x66 0x66 0 0
    ∷ entry 0xFB01 0x66 0x69 0 0
    ∷ entry 0xFB02 0x66 0x6C 0 0
    ∷ entry 0xFB05 0x73 0x74 0 0
    ∷ entry 0xFB06 0x73 0x74 0 0
    ∷ []
