-- ===== src/Loader/Pcv/Cvb/Defaults.antt =====
-- oc/pcv/pcv.hpp: the stock voltage tables that the patches look for. A negative coefficient stands
-- as its 32-bit word.
use horizon_oc.Prelude.{ℕ, List, [], ◌∷◌}
use horizon_oc.Loader.Customize.{CvbEntry}

-- A row, from its frequency in kHz and its two groups of six coefficients.
abbrev pub row : ℕ → List ℕ → List ℕ → CvbEntry
row freq dfll pll = record { freq = freq; cvb_dfll_param = dfll; cvb_pll_param = pll }

abbrev pub no_coefficients : List ℕ
no_coefficients = 0 ∷ 0 ∷ 0 ∷ 0 ∷ 0 ∷ 0 ∷ []

abbrev pub mariko_cpu_cvb_table_default : List CvbEntry
mariko_cpu_cvb_table_default =
    row 204000 (721589 ∷ 4294954601 ∷ 27 ∷ 0 ∷ 0 ∷ 0 ∷ []) no_coefficients
    ∷ row 306000 (747134 ∷ 4294953101 ∷ 27 ∷ 0 ∷ 0 ∷ 0 ∷ []) no_coefficients
    ∷ row 408000 (776324 ∷ 4294951591 ∷ 27 ∷ 0 ∷ 0 ∷ 0 ∷ []) no_coefficients
    ∷ row 510000 (809160 ∷ 4294950091 ∷ 27 ∷ 0 ∷ 0 ∷ 0 ∷ []) no_coefficients
    ∷ row 612000 (845641 ∷ 4294948581 ∷ 27 ∷ 0 ∷ 0 ∷ 0 ∷ []) no_coefficients
    ∷ row 714000 (885768 ∷ 4294947081 ∷ 27 ∷ 0 ∷ 0 ∷ 0 ∷ []) no_coefficients
    ∷ row 816000 (929540 ∷ 4294945571 ∷ 27 ∷ 0 ∷ 0 ∷ 0 ∷ []) no_coefficients
    ∷ row 918000 (976958 ∷ 4294944071 ∷ 27 ∷ 0 ∷ 0 ∷ 0 ∷ []) no_coefficients
    ∷ row 1020000 (1028021 ∷ 4294942571 ∷ 27 ∷ 0 ∷ 0 ∷ 0 ∷ []) (1120000 ∷ 0 ∷ 0 ∷ 0 ∷ 0 ∷ 0 ∷ [])
    ∷ row 1122000 (1082730 ∷ 4294941061 ∷ 27 ∷ 0 ∷ 0 ∷ 0 ∷ []) (1120000 ∷ 0 ∷ 0 ∷ 0 ∷ 0 ∷ 0 ∷ [])
    ∷ row 1224000 (1141084 ∷ 4294939561 ∷ 27 ∷ 0 ∷ 0 ∷ 0 ∷ []) (1120000 ∷ 0 ∷ 0 ∷ 0 ∷ 0 ∷ 0 ∷ [])
    ∷ row 1326000 (1203084 ∷ 4294938051 ∷ 27 ∷ 0 ∷ 0 ∷ 0 ∷ []) (1120000 ∷ 0 ∷ 0 ∷ 0 ∷ 0 ∷ 0 ∷ [])
    ∷ row 1428000 (1268729 ∷ 4294936551 ∷ 27 ∷ 0 ∷ 0 ∷ 0 ∷ []) (1120000 ∷ 0 ∷ 0 ∷ 0 ∷ 0 ∷ 0 ∷ [])
    ∷ row 1581000 (1374032 ∷ 4294934291 ∷ 27 ∷ 0 ∷ 0 ∷ 0 ∷ []) (1120000 ∷ 0 ∷ 0 ∷ 0 ∷ 0 ∷ 0 ∷ [])
    ∷ row 1683000 (1448791 ∷ 4294932791 ∷ 27 ∷ 0 ∷ 0 ∷ 0 ∷ []) (1120000 ∷ 0 ∷ 0 ∷ 0 ∷ 0 ∷ 0 ∷ [])
    ∷ row 1785000 (1527196 ∷ 4294931281 ∷ 27 ∷ 0 ∷ 0 ∷ 0 ∷ []) (1120000 ∷ 0 ∷ 0 ∷ 0 ∷ 0 ∷ 0 ∷ [])
    ∷ row 1887000 (1609246 ∷ 4294929781 ∷ 27 ∷ 0 ∷ 0 ∷ 0 ∷ []) (1120000 ∷ 0 ∷ 0 ∷ 0 ∷ 0 ∷ 0 ∷ [])
    ∷ row 1963500 (1675751 ∷ 4294928661 ∷ 27 ∷ 0 ∷ 0 ∷ 0 ∷ []) (1120000 ∷ 0 ∷ 0 ∷ 0 ∷ 0 ∷ 0 ∷ [])
    ∷ []

abbrev pub mariko_gpu_cvb_table_default : List CvbEntry
mariko_gpu_cvb_table_default =
    row 76800 no_coefficients (610000 ∷ 0 ∷ 0 ∷ 0 ∷ 0 ∷ 0 ∷ [])
    ∷ row 153600 no_coefficients (610000 ∷ 0 ∷ 0 ∷ 0 ∷ 0 ∷ 0 ∷ [])
    ∷ row 230400 no_coefficients (610000 ∷ 0 ∷ 0 ∷ 0 ∷ 0 ∷ 0 ∷ [])
    ∷ row 307200 no_coefficients (610000 ∷ 0 ∷ 0 ∷ 0 ∷ 0 ∷ 0 ∷ [])
    ∷ row 384000 no_coefficients (610000 ∷ 0 ∷ 0 ∷ 0 ∷ 0 ∷ 0 ∷ [])
    ∷ row 460800 no_coefficients (610000 ∷ 0 ∷ 0 ∷ 0 ∷ 0 ∷ 0 ∷ [])
    ∷ row 537600 no_coefficients (801688 ∷ 4294956396 ∷ 4294967133 ∷ 298 ∷ 4294956697 ∷ 162 ∷ [])
    ∷ row 614400 no_coefficients (824214 ∷ 4294961553 ∷ 4294966844 ∷ 238 ∷ 4294960971 ∷ 81 ∷ [])
    ∷ row 691200 no_coefficients
        (848830 ∷ 4294963393 ∷ 4294966744 ∷ 119 ∷ 4294963266 ∷ 4294967294 ∷ [])
    ∷ row 768000 no_coefficients (891575 ∷ 4294962887 ∷ 4294966712 ∷ 0 ∷ 4294964447 ∷ 39 ∷ [])
    ∷ row 844800 no_coefficients
        (940071 ∷ 4294961929 ∷ 4294966694 ∷ 4294967236 ∷ 4294967233 ∷ 4294967203 ∷ [])
    ∷ row 921600 no_coefficients
        (986765 ∷ 4294960659 ∷ 4294966682 ∷ 4294967117 ∷ 1905 ∷ 4294967283 ∷ [])
    ∷ row 998400 no_coefficients (1098475 ∷ 4294953767 ∷ 4294966799 ∷ 4294967117 ∷ 3626 ∷ 9 ∷ [])
    ∷ row 1075200 no_coefficients (1163644 ∷ 4294954608 ∷ 4294966648 ∷ 0 ∷ 1077 ∷ 40 ∷ [])
    ∷ row 1152000 no_coefficients (1204812 ∷ 4294957388 ∷ 4294966466 ∷ 0 ∷ 1469 ∷ 110 ∷ [])
    ∷ row 1228800 no_coefficients (1277303 ∷ 4294955621 ∷ 4294966437 ∷ 0 ∷ 3722 ∷ 313 ∷ [])
    ∷ row 1267200 no_coefficients (1335531 ∷ 4294954729 ∷ 4294966429 ∷ 0 ∷ 3681 ∷ 559 ∷ [])
    ∷ []

abbrev pub erista_cpu_cvb_table_default : List CvbEntry
erista_cpu_cvb_table_default =
    row 204000 (721094 ∷ 0 ∷ 0 ∷ 0 ∷ 0 ∷ 0 ∷ []) no_coefficients
    ∷ row 306000 (754040 ∷ 0 ∷ 0 ∷ 0 ∷ 0 ∷ 0 ∷ []) no_coefficients
    ∷ row 408000 (786986 ∷ 0 ∷ 0 ∷ 0 ∷ 0 ∷ 0 ∷ []) no_coefficients
    ∷ row 510000 (819932 ∷ 0 ∷ 0 ∷ 0 ∷ 0 ∷ 0 ∷ []) no_coefficients
    ∷ row 612000 (852878 ∷ 0 ∷ 0 ∷ 0 ∷ 0 ∷ 0 ∷ []) no_coefficients
    ∷ row 714000 (885824 ∷ 0 ∷ 0 ∷ 0 ∷ 0 ∷ 0 ∷ []) no_coefficients
    ∷ row 816000 (918770 ∷ 0 ∷ 0 ∷ 0 ∷ 0 ∷ 0 ∷ []) no_coefficients
    ∷ row 918000 (951716 ∷ 0 ∷ 0 ∷ 0 ∷ 0 ∷ 0 ∷ []) no_coefficients
    ∷ row 1020000 (984662 ∷ 0 ∷ 0 ∷ 0 ∷ 0 ∷ 0 ∷ [])
        (4292091675 ∷ 358099 ∷ 4294958711 ∷ 0 ∷ 0 ∷ 0 ∷ [])
    ∷ row 1122000 (1017608 ∷ 0 ∷ 0 ∷ 0 ∷ 0 ∷ 0 ∷ [])
        (4294915071 ∷ 104159 ∷ 4294964480 ∷ 0 ∷ 0 ∷ 0 ∷ [])
    ∷ row 1224000 (1050554 ∷ 0 ∷ 0 ∷ 0 ∷ 0 ∷ 0 ∷ []) (1076868 ∷ 8356 ∷ 4294966569 ∷ 0 ∷ 0 ∷ 0 ∷ [])
    ∷ row 1326000 (1083500 ∷ 0 ∷ 0 ∷ 0 ∷ 0 ∷ 0 ∷ []) (2208191 ∷ 4294882637 ∷ 1240 ∷ 0 ∷ 0 ∷ 0 ∷ [])
    ∷ row 1428000 (1116446 ∷ 0 ∷ 0 ∷ 0 ∷ 0 ∷ 0 ∷ []) (2519460 ∷ 4294862233 ∷ 1611 ∷ 0 ∷ 0 ∷ 0 ∷ [])
    ∷ row 1581000 (1130000 ∷ 0 ∷ 0 ∷ 0 ∷ 0 ∷ 0 ∷ []) (2889664 ∷ 4294845123 ∷ 1834 ∷ 0 ∷ 0 ∷ 0 ∷ [])
    ∷ row 1683000 (1168000 ∷ 0 ∷ 0 ∷ 0 ∷ 0 ∷ 0 ∷ []) (5100873 ∷ 4294688110 ∷ 4747 ∷ 0 ∷ 0 ∷ 0 ∷ [])
    ∷ row 1785000 (1227500 ∷ 0 ∷ 0 ∷ 0 ∷ 0 ∷ 0 ∷ []) (5100873 ∷ 4294688110 ∷ 4747 ∷ 0 ∷ 0 ∷ 0 ∷ [])
    ∷ []

abbrev pub erista_gpu_cvb_table_default : List CvbEntry
erista_gpu_cvb_table_default =
    row 76800 no_coefficients (814294 ∷ 8144 ∷ 4294966356 ∷ 808 ∷ 4294945713 ∷ 226 ∷ [])
    ∷ row 153600 no_coefficients (856185 ∷ 8144 ∷ 4294966356 ∷ 808 ∷ 4294945713 ∷ 226 ∷ [])
    ∷ row 230400 no_coefficients (898077 ∷ 8144 ∷ 4294966356 ∷ 808 ∷ 4294945713 ∷ 226 ∷ [])
    ∷ row 307200 no_coefficients (939968 ∷ 8144 ∷ 4294966356 ∷ 808 ∷ 4294945713 ∷ 226 ∷ [])
    ∷ row 384000 no_coefficients (981860 ∷ 8144 ∷ 4294966356 ∷ 808 ∷ 4294945713 ∷ 226 ∷ [])
    ∷ row 460800 no_coefficients (1023751 ∷ 8144 ∷ 4294966356 ∷ 808 ∷ 4294945713 ∷ 226 ∷ [])
    ∷ row 537600 no_coefficients (1065642 ∷ 8144 ∷ 4294966356 ∷ 808 ∷ 4294945713 ∷ 226 ∷ [])
    ∷ row 614400 no_coefficients (1107534 ∷ 8144 ∷ 4294966356 ∷ 808 ∷ 4294945713 ∷ 226 ∷ [])
    ∷ row 691200 no_coefficients (1149425 ∷ 8144 ∷ 4294966356 ∷ 808 ∷ 4294945713 ∷ 226 ∷ [])
    ∷ row 768000 no_coefficients (1191317 ∷ 8144 ∷ 4294966356 ∷ 808 ∷ 4294945713 ∷ 226 ∷ [])
    ∷ row 844800 no_coefficients (1233208 ∷ 8144 ∷ 4294966356 ∷ 808 ∷ 4294945713 ∷ 226 ∷ [])
    ∷ row 921600 no_coefficients (1275100 ∷ 8144 ∷ 4294966356 ∷ 808 ∷ 4294945713 ∷ 226 ∷ [])
    ∷ []
