-- ===== src/Spellfix/Translit/Latin.antt =====
-- internal/spellfix/spellfix.c: the rows of translit for Latin letters, by the blocks of Unicode.
use letarette.Base.{List, [], ◌∷◌}
use letarette.Spellfix.Translit.Row.{Transliteration, entry}

unfoldable pub latin_one : List Transliteration
latin_one =
    entry 0x00A0 0x20 0 0 0
    ∷ entry 0x00B5 0x75 0 0 0
    ∷ entry 0x00C0 0x41 0 0 0
    ∷ entry 0x00C1 0x41 0 0 0
    ∷ entry 0x00C2 0x41 0 0 0
    ∷ entry 0x00C3 0x41 0 0 0
    ∷ entry 0x00C4 0x41 0x65 0 0
    ∷ entry 0x00C5 0x41 0x61 0 0
    ∷ entry 0x00C6 0x41 0x45 0 0
    ∷ entry 0x00C7 0x43 0 0 0
    ∷ entry 0x00C8 0x45 0 0 0
    ∷ entry 0x00C9 0x45 0 0 0
    ∷ entry 0x00CA 0x45 0 0 0
    ∷ entry 0x00CB 0x45 0 0 0
    ∷ entry 0x00CC 0x49 0 0 0
    ∷ entry 0x00CD 0x49 0 0 0
    ∷ entry 0x00CE 0x49 0 0 0
    ∷ entry 0x00CF 0x49 0 0 0
    ∷ entry 0x00D0 0x44 0 0 0
    ∷ entry 0x00D1 0x4E 0 0 0
    ∷ entry 0x00D2 0x4F 0 0 0
    ∷ entry 0x00D3 0x4F 0 0 0
    ∷ entry 0x00D4 0x4F 0 0 0
    ∷ entry 0x00D5 0x4F 0 0 0
    ∷ entry 0x00D6 0x4F 0x65 0 0
    ∷ entry 0x00D7 0x78 0 0 0
    ∷ entry 0x00D8 0x4F 0 0 0
    ∷ entry 0x00D9 0x55 0 0 0
    ∷ entry 0x00DA 0x55 0 0 0
    ∷ entry 0x00DB 0x55 0 0 0
    ∷ entry 0x00DC 0x55 0x65 0 0
    ∷ entry 0x00DD 0x59 0 0 0
    ∷ entry 0x00DE 0x54 0x68 0 0
    ∷ entry 0x00DF 0x73 0x73 0 0
    ∷ entry 0x00E0 0x61 0 0 0
    ∷ entry 0x00E1 0x61 0 0 0
    ∷ entry 0x00E2 0x61 0 0 0
    ∷ entry 0x00E3 0x61 0 0 0
    ∷ entry 0x00E4 0x61 0x65 0 0
    ∷ entry 0x00E5 0x61 0x61 0 0
    ∷ entry 0x00E6 0x61 0x65 0 0
    ∷ entry 0x00E7 0x63 0 0 0
    ∷ entry 0x00E8 0x65 0 0 0
    ∷ entry 0x00E9 0x65 0 0 0
    ∷ entry 0x00EA 0x65 0 0 0
    ∷ entry 0x00EB 0x65 0 0 0
    ∷ entry 0x00EC 0x69 0 0 0
    ∷ entry 0x00ED 0x69 0 0 0
    ∷ entry 0x00EE 0x69 0 0 0
    ∷ entry 0x00EF 0x69 0 0 0
    ∷ entry 0x00F0 0x64 0 0 0
    ∷ entry 0x00F1 0x6E 0 0 0
    ∷ entry 0x00F2 0x6F 0 0 0
    ∷ entry 0x00F3 0x6F 0 0 0
    ∷ entry 0x00F4 0x6F 0 0 0
    ∷ entry 0x00F5 0x6F 0 0 0
    ∷ entry 0x00F6 0x6F 0x65 0 0
    ∷ entry 0x00F7 0x3A 0 0 0
    ∷ entry 0x00F8 0x6F 0 0 0
    ∷ entry 0x00F9 0x75 0 0 0
    ∷ entry 0x00FA 0x75 0 0 0
    ∷ entry 0x00FB 0x75 0 0 0
    ∷ entry 0x00FC 0x75 0x65 0 0
    ∷ entry 0x00FD 0x79 0 0 0
    ∷ entry 0x00FE 0x74 0x68 0 0
    ∷ entry 0x00FF 0x79 0 0 0
    ∷ []

unfoldable pub latin_extended : List Transliteration
latin_extended =
    entry 0x0100 0x41 0 0 0
    ∷ entry 0x0101 0x61 0 0 0
    ∷ entry 0x0102 0x41 0 0 0
    ∷ entry 0x0103 0x61 0 0 0
    ∷ entry 0x0104 0x41 0 0 0
    ∷ entry 0x0105 0x61 0 0 0
    ∷ entry 0x0106 0x43 0 0 0
    ∷ entry 0x0107 0x63 0 0 0
    ∷ entry 0x0108 0x43 0x68 0 0
    ∷ entry 0x0109 0x63 0x68 0 0
    ∷ entry 0x010A 0x43 0 0 0
    ∷ entry 0x010B 0x63 0 0 0
    ∷ entry 0x010C 0x43 0 0 0
    ∷ entry 0x010D 0x63 0 0 0
    ∷ entry 0x010E 0x44 0 0 0
    ∷ entry 0x010F 0x64 0 0 0
    ∷ entry 0x0110 0x44 0 0 0
    ∷ entry 0x0111 0x64 0 0 0
    ∷ entry 0x0112 0x45 0 0 0
    ∷ entry 0x0113 0x65 0 0 0
    ∷ entry 0x0114 0x45 0 0 0
    ∷ entry 0x0115 0x65 0 0 0
    ∷ entry 0x0116 0x45 0 0 0
    ∷ entry 0x0117 0x65 0 0 0
    ∷ entry 0x0118 0x45 0 0 0
    ∷ entry 0x0119 0x65 0 0 0
    ∷ entry 0x011A 0x45 0 0 0
    ∷ entry 0x011B 0x65 0 0 0
    ∷ entry 0x011C 0x47 0x68 0 0
    ∷ entry 0x011D 0x67 0x68 0 0
    ∷ entry 0x011E 0x47 0 0 0
    ∷ entry 0x011F 0x67 0 0 0
    ∷ entry 0x0120 0x47 0 0 0
    ∷ entry 0x0121 0x67 0 0 0
    ∷ entry 0x0122 0x47 0 0 0
    ∷ entry 0x0123 0x67 0 0 0
    ∷ entry 0x0124 0x48 0x68 0 0
    ∷ entry 0x0125 0x68 0x68 0 0
    ∷ entry 0x0126 0x48 0 0 0
    ∷ entry 0x0127 0x68 0 0 0
    ∷ entry 0x0128 0x49 0 0 0
    ∷ entry 0x0129 0x69 0 0 0
    ∷ entry 0x012A 0x49 0 0 0
    ∷ entry 0x012B 0x69 0 0 0
    ∷ entry 0x012C 0x49 0 0 0
    ∷ entry 0x012D 0x69 0 0 0
    ∷ entry 0x012E 0x49 0 0 0
    ∷ entry 0x012F 0x69 0 0 0
    ∷ entry 0x0130 0x49 0 0 0
    ∷ entry 0x0131 0x69 0 0 0
    ∷ entry 0x0132 0x49 0x4A 0 0
    ∷ entry 0x0133 0x69 0x6A 0 0
    ∷ entry 0x0134 0x4A 0x68 0 0
    ∷ entry 0x0135 0x6A 0x68 0 0
    ∷ entry 0x0136 0x4B 0 0 0
    ∷ entry 0x0137 0x6B 0 0 0
    ∷ entry 0x0138 0x6B 0 0 0
    ∷ entry 0x0139 0x4C 0 0 0
    ∷ entry 0x013A 0x6C 0 0 0
    ∷ entry 0x013B 0x4C 0 0 0
    ∷ entry 0x013C 0x6C 0 0 0
    ∷ entry 0x013D 0x4C 0 0 0
    ∷ entry 0x013E 0x6C 0 0 0
    ∷ entry 0x013F 0x4C 0x2E 0 0
    ∷ entry 0x0140 0x6C 0x2E 0 0
    ∷ entry 0x0141 0x4C 0 0 0
    ∷ entry 0x0142 0x6C 0 0 0
    ∷ entry 0x0143 0x4E 0 0 0
    ∷ entry 0x0144 0x6E 0 0 0
    ∷ entry 0x0145 0x4E 0 0 0
    ∷ entry 0x0146 0x6E 0 0 0
    ∷ entry 0x0147 0x4E 0 0 0
    ∷ entry 0x0148 0x6E 0 0 0
    ∷ entry 0x0149 0x27 0x6E 0 0
    ∷ entry 0x014A 0x4E 0x47 0 0
    ∷ entry 0x014B 0x6E 0x67 0 0
    ∷ entry 0x014C 0x4F 0 0 0
    ∷ entry 0x014D 0x6F 0 0 0
    ∷ entry 0x014E 0x4F 0 0 0
    ∷ entry 0x014F 0x6F 0 0 0
    ∷ entry 0x0150 0x4F 0 0 0
    ∷ entry 0x0151 0x6F 0 0 0
    ∷ entry 0x0152 0x4F 0x45 0 0
    ∷ entry 0x0153 0x6F 0x65 0 0
    ∷ entry 0x0154 0x52 0 0 0
    ∷ entry 0x0155 0x72 0 0 0
    ∷ entry 0x0156 0x52 0 0 0
    ∷ entry 0x0157 0x72 0 0 0
    ∷ entry 0x0158 0x52 0 0 0
    ∷ entry 0x0159 0x72 0 0 0
    ∷ entry 0x015A 0x53 0 0 0
    ∷ entry 0x015B 0x73 0 0 0
    ∷ entry 0x015C 0x53 0x68 0 0
    ∷ entry 0x015D 0x73 0x68 0 0
    ∷ entry 0x015E 0x53 0 0 0
    ∷ entry 0x015F 0x73 0 0 0
    ∷ entry 0x0160 0x53 0 0 0
    ∷ entry 0x0161 0x73 0 0 0
    ∷ entry 0x0162 0x54 0 0 0
    ∷ entry 0x0163 0x74 0 0 0
    ∷ entry 0x0164 0x54 0 0 0
    ∷ entry 0x0165 0x74 0 0 0
    ∷ entry 0x0166 0x54 0 0 0
    ∷ entry 0x0167 0x74 0 0 0
    ∷ entry 0x0168 0x55 0 0 0
    ∷ entry 0x0169 0x75 0 0 0
    ∷ entry 0x016A 0x55 0 0 0
    ∷ entry 0x016B 0x75 0 0 0
    ∷ entry 0x016C 0x55 0 0 0
    ∷ entry 0x016D 0x75 0 0 0
    ∷ entry 0x016E 0x55 0 0 0
    ∷ entry 0x016F 0x75 0 0 0
    ∷ entry 0x0170 0x55 0 0 0
    ∷ entry 0x0171 0x75 0 0 0
    ∷ entry 0x0172 0x55 0 0 0
    ∷ entry 0x0173 0x75 0 0 0
    ∷ entry 0x0174 0x57 0 0 0
    ∷ entry 0x0175 0x77 0 0 0
    ∷ entry 0x0176 0x59 0 0 0
    ∷ entry 0x0177 0x79 0 0 0
    ∷ entry 0x0178 0x59 0 0 0
    ∷ entry 0x0179 0x5A 0 0 0
    ∷ entry 0x017A 0x7A 0 0 0
    ∷ entry 0x017B 0x5A 0 0 0
    ∷ entry 0x017C 0x7A 0 0 0
    ∷ entry 0x017D 0x5A 0 0 0
    ∷ entry 0x017E 0x7A 0 0 0
    ∷ entry 0x017F 0x73 0 0 0
    ∷ entry 0x0192 0x66 0 0 0
    ∷ entry 0x0218 0x53 0 0 0
    ∷ entry 0x0219 0x73 0 0 0
    ∷ entry 0x021A 0x54 0 0 0
    ∷ entry 0x021B 0x74 0 0 0
    ∷ []
