-- ===== src/Jinko/Schema.antt =====
-- bridge/internal/source/jinko/schema.go: the canonical metrics, and how a metric finds its own.
pub mod Lookup
pub mod Canonical
use Prim.Native.String.{String}
use jinko_exporter.Prelude.{List, [], ◌∷◌}

pub record MetricDefinition : Type 0 where
  pub key : String
  pub group : String
  pub name : String
  pub unit : String

abbrev pub define : String → String → String → String → MetricDefinition
define key group name unit = record { key = key; group = group; name = name; unit = unit }

abbrev pub canonical_metric_definitions : List MetricDefinition
canonical_metric_definitions =
    define "INV_MOD1" "basic" "Inverter Type" ""
    ∷ define "Pr1" "basic" "Rated Power" "W"
    ∷ define "HV_V" "basic" "HV Voltage" "V"
    ∷ define "BN_V" "basic" "Bus-N Voltage" "V"
    ∷ define "PTCv1" "version" "Protocol Version" ""
    ∷ define "LBVN" "version" "Lithium Battery Version Number" ""
    ∷ define "L_B_V_N2" "version" "Lithium battery2 version number" ""
    ∷ define "A_B_F_V" "version" "Arc Board Firmware Version" ""
    ∷ define "ENG_VER" "version" "English Version" ""
    ∷ define "ESP_VER" "version" "Spanish Version" ""
    ∷ define "HUN_VER" "version" "Hungarian Version" ""
    ∷ define "DEU_VER" "version" "German Version" ""
    ∷ define "PO_VER" "version" "Polish Version" ""
    ∷ define "UK_VER" "version" "Ukrainian Version" ""
    ∷ define "CZ_VER" "version" "Czech Version" ""
    ∷ define "ITA_VER" "version" "Italian Version" ""
    ∷ define "L_B_V_N" "version" "Lithium battery version number" ""
    ∷ define "DV1" "electric" "DC Voltage PV1" "V"
    ∷ define "DV2" "electric" "DC Voltage PV2" "V"
    ∷ define "DV3" "electric" "DC Voltage PV3" "V"
    ∷ define "DV4" "electric" "DC Voltage PV4" "V"
    ∷ define "PV_D_P_G" "electric" "PV daily power generation (active)" "kWh"
    ∷ define "P_F1" "electric" "Power factor" ""
    ∷ define "A_V_MA" "electric" "AC Voltage Max" "V"
    ∷ define "A_V_MI" "electric" "AC Voltage Min" "V"
    ∷ define "O_P" "electric" "Output power" "kVA"
    ∷ define "DC1" "electric" "DC Current PV1" "A"
    ∷ define "DC2" "electric" "DC Current PV2" "A"
    ∷ define "DC3" "electric" "DC Current PV3" "A"
    ∷ define "DC4" "electric" "DC Current PV4" "A"
    ∷ define "DP1" "electric" "DC Power PV1" "W"
    ∷ define "DP2" "electric" "DC Power PV2" "W"
    ∷ define "DP3" "electric" "DC Power PV3" "W"
    ∷ define "DP4" "electric" "DC Power PV4" "W"
    ∷ define "AV1" "electric" "AC Voltage R/U/A" "V"
    ∷ define "AV2" "electric" "AC Voltage S/V/B" "V"
    ∷ define "AV3" "electric" "AC Voltage T/W/C" "V"
    ∷ define "AC1" "electric" "AC Current R/U/A" "A"
    ∷ define "AC2" "electric" "AC Current S/V/B" "A"
    ∷ define "AC3" "electric" "AC Current T/W/C" "A"
    ∷ define "A_Fo1" "electric" "AC Output Frequency R" "Hz"
    ∷ define "Et_ge0" "electric" "Cumulative Production (Active)" "kWh"
    ∷ define "Etdy_ge1" "electric" "Daily Production (Active)" "kWh"
    ∷ define "INV_O_P_L1" "electric" "Inverter Output Power L1" "W"
    ∷ define "INV_O_P_L2" "electric" "Inverter Output Power L2" "W"
    ∷ define "INV_O_P_L3" "electric" "Inverter Output Power L3" "W"
    ∷ define "INV_O_P_T" "electric" "Total Inverter Output Power" "W"
    ∷ define "AC_S_A" "electric" "AC_Solar phaseA" "W"
    ∷ define "AC_S_B" "electric" "AC_Solar phaseB" "W"
    ∷ define "AC_S_C" "electric" "AC_Solar phaseC" "W"
    ∷ define "S_P_T" "electric" "Total Solar Power" "W"
    ∷ define "G_V_L1" "grid" "Grid\u{a0}Voltage\u{a0}L1" "V"
    ∷ define "G_C_L1" "grid" "Grid\u{a0}Current\u{a0}L1" "A"
    ∷ define "G_P_L1" "grid" "Grid Power L1" "W"
    ∷ define "G_V_L2" "grid" "Grid\u{a0}Voltage\u{a0}L2" "V"
    ∷ define "G_C_L2" "grid" "Grid\u{a0}Current\u{a0}L2" "A"
    ∷ define "G_P_L2" "grid" "Grid Power L2" "W"
    ∷ define "G_V_L3" "grid" "Grid\u{a0}Voltage\u{a0}L3" "V"
    ∷ define "G_C_L3" "grid" "Grid\u{a0}Current\u{a0}L3" "A"
    ∷ define "G_P_L3" "grid" "Grid Power L3" "W"
    ∷ define "ST_PG1" "grid" "Grid Status" ""
    ∷ define "CT1_P_E" "grid" "External\u{a0}CT1\u{a0}Power" "W"
    ∷ define "CT2_P_E" "grid" "External\u{a0}CT2\u{a0}Power" "W"
    ∷ define "CT3_P_E" "grid" "External\u{a0}CT3\u{a0}Power" "W"
    ∷ define "CT_T_E" "grid" "Total\u{a0}External\u{a0}CT\u{a0}Power" "W"
    ∷ define "PG_F1" "grid" "Grid Frequency" "Hz"
    ∷ define "PG_Pt1" "grid" "Total Grid Power" "W"
    ∷ define "G16" "grid" "Total Grid reactive Power" "Var"
    ∷ define "A_RP_PG" "grid" "A-Phase Reactive Power Of Power Grid" "Var"
    ∷ define "B_RP_PG" "grid" "B-Phase Reactive Power Of Power Grid" "Var"
    ∷ define "C_RP_PG" "grid" "C-Phase Reactive Power Of Power Grid" "Var"
    ∷ define "E_B_D" "grid" "Daily\u{a0}Energy\u{a0}Buy" "kWh"
    ∷ define "E_S_D" "grid" "Daily\u{a0}energy\u{a0}sell" "kWh"
    ∷ define "E_B_TO" "grid" "Total\u{a0}Energy\u{a0}Buy" "kWh"
    ∷ define "E_S_TO" "grid" "Total\u{a0}Energy\u{a0}Sell" "kWh"
    ∷ define "GS_A" "grid" "Internal L1 Power" "W"
    ∷ define "GS_B" "grid" "Internal L2 Power" "W"
    ∷ define "GS_C" "grid" "Internal L3 Power" "W"
    ∷ define "GS_T" "grid" "Internal Power" "W"
    ∷ define "A_RP_INV" "grid" "Inverter A-Phase Reactive Power" "Var"
    ∷ define "B_RP_INV" "grid" "Inverter B-Phase Reactive Power" "Var"
    ∷ define "C_RP_INV" "grid" "Inverter C-Phase Reactive Power" "Var"
    ∷ define "C_V_L1" "consumption" "Load Voltage  L1" "V"
    ∷ define "C_V_L2" "consumption" "Load Voltage  L2" "V"
    ∷ define "C_V_L3" "consumption" "Load Voltage  L3" "V"
    ∷ define "C_P_L1" "consumption" "Load  Power L1" "W"
    ∷ define "C_P_L2" "consumption" "Load  Power L2" "W"
    ∷ define "C_P_L3" "consumption" "Load  Power L3" "W"
    ∷ define "E_Puse_t1" "consumption" "Total Consumption Power" "W"
    ∷ define "E_Suse_t1" "consumption" "Total Consumption Apparent Power" "VA"
    ∷ define "Etdy_use1" "consumption" "Daily Consumption" "kWh"
    ∷ define "E_C_T" "consumption" "Total\u{a0}Consumption" "kWh"
    ∷ define "L_F" "consumption" "Load Fequency" "Hz"
    ∷ define "LPP_A" "consumption" "Load phase power A" "W"
    ∷ define "LPP_B" "consumption" "Load phase power B" "W"
    ∷ define "LPP_C" "consumption" "Load phase power C" "W"
    ∷ define "B_ST1" "battery" "Battery Status" ""
    ∷ define "B_V1" "battery" "Battery Voltage" "V"
    ∷ define "B_C1" "battery" "Battery Current" "A"
    ∷ define "B_P1" "battery" "Battery Power" "W"
    ∷ define "B_left_cap1" "battery" "SoC" "%"
    ∷ define "t_cg_n1" "battery" "Total Charging Energy" "kWh"
    ∷ define "t_dcg_n1" "battery" "Total Discharging Energy" "kWh"
    ∷ define "Etdy_cg1" "battery" "Daily Charging Energy" "kWh"
    ∷ define "Etdy_dcg1" "battery" "Daily Discharging Energy" "kWh"
    ∷ define "B_TYP1" "battery" "Battery Type" ""
    ∷ define "Ba_NR" "battery" "Battery Number" ""
    ∷ define "BMS_B_V1" "bms" "BMS Voltage" "V"
    ∷ define "BMS_B_C1" "bms" "BMS Current" "A"
    ∷ define "BMST" "bms" "BMS Temperature" "℃"
    ∷ define "BMS_C_V" "bms" "BMS Charge Voltage" "V"
    ∷ define "BMS_D_V" "bms" "BMS Discharge Voltage" "V"
    ∷ define "BMS_C_C_L" "bms" "Charge Current Limit" "A"
    ∷ define "BMS_D_C_L" "bms" "Discharge Current Limit" "A"
    ∷ define "BMS_SOC" "bms" "BMS_SOC" "%"
    ∷ define "BMS_CC1" "bms" "BMS Charging Max Current" "A"
    ∷ define "BMS_DC1" "bms" "BMS DischargeMax Current" "A"
    ∷ define "Li_B_TP" "bms" "Li-bat type" ""
    ∷ define "Li_B_SOH" "bms" "Lithium battery SOH" "%"
    ∷ define "B_R_CAP" "bms" "Battery Rating Capacity" "AH"
    ∷ define "Li_B_TP2" "bms2" "Li-bat2 type" ""
    ∷ define "Li_B_SOH2" "bms2" "Lithium battery2 SOH" "%"
    ∷ define "B_R_CAP2" "bms2" "Battery2 Rating Capacity" "AH"
    ∷ define "B_T1" "temperature" "Temperature- Battery" "℃"
    ∷ define "T_DC" "temperature" "DC Temperature" "℃"
    ∷ define "AC_T" "temperature" "AC Temperature" "℃"
    ∷ define "AC" "status" "AC side relay status" ""
    ∷ define "L_B_A_F" "alert" "Lithium battery alarm flag" ""
    ∷ define "L_B_F_F" "alert" "Lithium battery fault flag" ""
    ∷ define "L_B_A_F2" "alert" "Lithium battery2 alarm flag" ""
    ∷ define "L_B_F_F2" "alert" "Lithium battery2 fault flag" ""
    ∷ define "GEN_P_L1" "generator" "Gen Power L1" "W"
    ∷ define "GEN_P_L2" "generator" "Gen Power L2" "W"
    ∷ define "GEN_P_L3" "generator" "Gen Power L3" "W"
    ∷ define "GEN_V_L1" "generator" "Gen Voltage L1" "V"
    ∷ define "GEN_V_L2" "generator" "Gen Voltage L2" "V"
    ∷ define "GEN_V_L3" "generator" "Gen Voltage L3" "V"
    ∷ define "R_T_D" "generator" "Gen\u{a0}Daily\u{a0}Run\u{a0}Time" "h"
    ∷ define "EG_P_CT1" "generator" "Generator Active Power" "W"
    ∷ define "GEN_P_T" "generator" "Total Gen Power" "W"
    ∷ define "GEN_P_D" "generator" "Daily Production Generator" "kWh"
    ∷ define "GEN_P_TO" "generator" "Total Production Generator" "kWh"
    ∷ define "UPS_P" "ups" "UPS Load Power" "W"
    ∷ []
